-- ===== src/Status.antt =====
-- The status codes of vellum/include/vellum/status.h, and the results of functions that return one.

pub data Status : Type 0 where
  success deprecated no_event : Status
  unknown_error invalid_resource unexpected_result invalid_signature invalid_value : Status
  not_supported entry_not_found not_implemented hardware_not_found hardware_failed : Status
  io_timeout buffer_underflow conflicting_state end_of_list wrong_element_type : Status
  duplicate_entry syntax_error end_of_file invalid_format size_check_failure : Status
  boot_device_inaccessible invalid_syntax buffer_too_small page_not_present : Status
  insufficient_memory fs_inconsistent : Status

-- A function that returns a `status_t` and stores its result through a pointer: `ok` is
-- STATUS_SUCCESS with what was stored, `err` a failure, after which nothing was stored.
pub data Result {ℓ} (A : Type ℓ) : Type ℓ where
  ok : A → Result A
  err : Status → Result A

-- `if (!CHECK_SUCCESS(status)) return status;` between two steps that change a state.
abbrev pub and_then {ℓ κ ι} :
    {A : Type ℓ} {B : Type κ} {S : Type ι} → Result A × S → (A → S → Result B × S) → Result B × S
and_then (ok a, s) k = k a s
and_then (err e, s) k = (err e, s)
