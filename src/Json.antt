-- ===== src/Json.antt =====
-- vellum/json/json.c: the values, their accessors, and what the parser keeps while it runs.
pub mod Scan
pub mod Parse
pub mod Literals
pub mod Numbers
pub mod Separators
pub mod Ahead
pub mod Progress
pub mod Termination
mod Tests
use sscc_oslecture.Base.{◌==◌, if◌then◌else◌, word_mod, ℕ, zero, ◌+◌, ◌%◌, Bool, List}
use sscc_oslecture.Status.{Status, entry_not_found, Result, ok, err}
use sscc_oslecture.Libc.Strings.{rest, strcmp}
use sscc_oslecture.Base.Int.{pos}

-- A value and, as its elements are, the lists of an array and of an object. A number is its `int64_t` as
-- a 64-bit word.
mutual
  pub data Json : Type 0 where
    null : Json
    string : List ℕ → Json
    number : ℕ → Json
    boolean : Bool → Json
    object : Members → Json
    array : Elements → Json

  pub data Elements : Type 0 where
    no_elements : Elements
    element : ℕ → Json → Elements → Elements

  pub data Members : Type 0 where
    no_members : Members
    member : List ℕ → Json → Members → Members

-- `cursor` of struct json_state, and how often malloc has been called.
pub record State : Type 0 where
  pub cursor : ℕ
  pub calls : ℕ

-- How a function of the parser ends. A failure ends the whole parse, so the cursor is dropped.
pub data Run {ℓ} (A : Type ℓ) : Type ℓ where
  out_of_fuel : Run A
  failed : Status → Run A
  done : A → State → Run A

-- `if (!CHECK_SUCCESS(status)) goto has_error;`
abbrev pub bind {ℓ κ} : {A : Type ℓ} {B : Type κ} → Run A → (A → State → Run B) → Run B
bind out_of_fuel k = out_of_fuel
bind (failed e) k = failed e
bind (done a s) k = k a s

pub get_object_element_value : Members → List ℕ → Result Json
get_object_element_value no_members key = err Status.entry_not_found
get_object_element_value (member name value rest) key =
    let later = get_object_element_value rest key in
    elim (strcmp key name) [ pos zero ↦ ok value | _ ↦ later ]

pub get_array_element_value : Elements → ℕ → Result Json
get_array_element_value no_elements idx = err Status.entry_not_found
get_array_element_value (element index value rest) idx =
    let later = get_array_element_value rest idx in if index == idx then ok value else later

-- The count is an unsigned int.
pub get_array_element_count : Elements → ℕ
get_array_element_count no_elements = 0
get_array_element_count (element index value rest) = (get_array_element_count rest + 1) % word_mod
