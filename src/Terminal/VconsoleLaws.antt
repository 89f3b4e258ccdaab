-- ===== src/Terminal/VconsoleLaws.antt =====
-- vellum/device/video/vconsole.c in a graphics mode follows the laws of a console.
use sscc_oslecture.Base.{
  if◌then◌else◌, add32, sub32, ℕ, zero, suc, ◌*◌, ◌≤◌, ◌<◌, ◌≡◌, refl, sym, ap, subst, ◌∙◌, Bool,
  true, false,
}
use sscc_oslecture.Status.{Result, ok}
use sscc_oslecture.Terminal.Laws.{Screen, Shows, ConsoleLaws}
use sscc_oslecture.Terminal.Drawing.{rounds}
use sscc_oslecture.Terminal.Vconsole.{
  VconsoleData, Vconsole, get_dimension, get_buffer, cells, with_cells, invalidate, refresh,
  refresh_row, refresh_rows, refresh_cursor, flush, set_cursor_pos, get_cursor_pos, conif,
}
use sscc_oslecture.Terminal.Glyphs.{Framebuffer}
use sscc_oslecture.Terminal.Sound.{IsSteady}
use sscc_oslecture.Terminal.Placing.{IsIdle}
use sscc_oslecture.Terminal.{Cell, plain, Tty}

-- A graphics mode that is not being switched.
pub record IsGraphic (d : VconsoleData) : Type 0 where
  pub settled : d.is_switching_mode ≡ false
  pub graphic : d.is_text ≡ false

pub shown_by : VconsoleData → Screen
shown_by d = record {
  width = d.cols;
  height = d.rows;
  col = d.cursor_col;
  row = d.cursor_row;
  cells = d.char_buffer;
}

pub if_false : {A : Type 0} (x y : A) (b : Bool) → b ≡ false → (if b then x else y) ≡ y
if_false x y b e = ap (λ c. if c then x else y) e

module _ {F : Type 0} (fb : Framebuffer F) where
  -- Two states that show the same screen in the same mode.
  record IsSame (v u : Vconsole F) : Type 0 where
    screen : shown_by (u.data_) ≡ shown_by (v.data_)
    switching : u.data_.is_switching_mode ≡ v.data_.is_switching_mode
    text : u.data_.is_text ≡ v.data_.is_text

  self-IsSame : (v : Vconsole F) → IsSame v v
  self-IsSame v = record { screen = refl; switching = refl; text = refl }

  trans-IsSame : (u v w : Vconsole F) → IsSame u v → IsSame v w → IsSame u w
  trans-IsSame u v w p q = record {
    screen = q.screen ∙ p.screen;
    switching = q.switching ∙ p.switching;
    text = q.text ∙ p.text;
  }

  if-IsSame :
      (b : Bool) (v x y : Vconsole F) → IsSame v x → IsSame v y → IsSame v (if b then x else y)
  if-IsSame true v x y p q = p
  if-IsSame false v x y p q = q

  refresh-IsSame : (row col : ℕ) (v : Vconsole F) → IsSame v (refresh fb row col v)
  unfolding refresh shown_by
  refresh-IsSame row col v =
      if-IsSame _ v _ v record { screen = refl; switching = refl; text = refl } (self-IsSame v)

  refresh_row-IsSame : (row col n : ℕ) (v : Vconsole F) → IsSame v (refresh_row fb row col n v)
  unfolding refresh_row
  refresh_row-IsSame row col zero v = self-IsSame v
  refresh_row-IsSame row col (suc n) v =
      trans-IsSame v (refresh fb row col v) _ (refresh-IsSame row col v)
        (refresh_row-IsSame row (add32 col 1) n (refresh fb row col v))

  refresh_rows-IsSame :
      (row columns n : ℕ) (v : Vconsole F) → IsSame v (refresh_rows fb row columns n v)
  unfolding refresh_rows
  refresh_rows-IsSame row columns zero v = self-IsSame v
  refresh_rows-IsSame row columns (suc n) v =
      trans-IsSame v (refresh_row fb row 0 columns v) _ (refresh_row-IsSame row 0 columns v)
        (refresh_rows-IsSame (add32 row 1) columns n (refresh_row fb row 0 columns v))

  refresh_cursor-IsSame : (v : Vconsole F) → IsSame v (refresh_cursor fb v)
  unfolding refresh_cursor shown_by
  refresh_cursor-IsSame v =
      if-IsSame _ v _ v record { screen = refl; switching = refl; text = refl } (self-IsSame v)

  -- What is ready stays so, and shows what it showed.
  same_ready : (u v : Vconsole F) → IsSame u v → IsGraphic u.data_ → IsGraphic v.data_
  same_ready u v same g = record {
    settled = same.switching ∙ g.settled;
    graphic = same.text ∙ g.graphic;
  }

  module _ (v : Vconsole F) (g : IsGraphic v.data_) where
    with_cells-eq :
        (m : ℕ → Cell) → with_cells fb v m ≡ record v { data_ = record v.data_ { char_buffer = m } }
    unfolding with_cells
    with_cells-eq m = if_false _ _ v.data_.is_text g.graphic

    with_cells-IsGraphic : (m : ℕ → Cell) → IsGraphic (with_cells fb v m).data_
    with_cells-IsGraphic m =
        subst (λ u. IsGraphic u.data_) (sym (with_cells-eq m))
          record { settled = g.settled; graphic = g.graphic }

    with_cells_shown :
        (m : ℕ → Cell)
        → shown_by (with_cells fb v m).data_ ≡ record (shown_by v.data_) { cells = m }
    unfolding shown_by
    with_cells_shown m = ap (λ u. shown_by u.data_) (with_cells-eq m)

    -- An order that has succeeded with a console that shows the same.
    same-Shows :
        (o : Result (Unit {0}) × Vconsole F) (u : Vconsole F)
        → o ≡ (ok tt, u)
        → IsSame v u
        → Shows (λ u. IsGraphic u.data_) (λ u. shown_by u.data_) (shown_by v.data_) o
    same-Shows o u e same = record {
      succeeds = ap (λ x. x.0) e;
      ready = subst (λ x. IsGraphic (x.1).data_) (sym e) (same_ready v u same g);
      shown = ap (λ x. shown_by (x.1).data_) e ∙ same.screen;
    }

    invalidate-Shows :
        (x0 y0 x1 y1 : ℕ)
        → Shows
            (λ u. IsGraphic u.data_)
            (λ u. shown_by u.data_)
            (shown_by v.data_)
            (invalidate fb x0 y0 x1 y1 v)
    unfolding invalidate shown_by
    invalidate-Shows x0 y0 x1 y1 =
        same-Shows (invalidate fb x0 y0 x1 y1 v) _
          (if_false _ _ v.data_.is_text g.graphic
            ∙ if_false _ _ v.data_.is_switching_mode g.settled)
          record { screen = refl; switching = refl; text = refl }

    set_cursor_pos-Shows :
        (x y : ℕ)
        → Shows
            (λ u. IsGraphic u.data_)
            (λ u. shown_by u.data_)
            (record (shown_by v.data_) { col = x; row = y })
            (set_cursor_pos fb x y v)
    unfolding set_cursor_pos shown_by
    set_cursor_pos-Shows x y =
        let e : set_cursor_pos fb x y v
            ≡ (ok tt, record v { data_ = record v.data_ { cursor_col = x; cursor_row = y } }) =
          if_false _ _ v.data_.is_text g.graphic in
        record {
          succeeds = ap (λ o. o.0) e;
          ready =
              subst (λ o. IsGraphic (o.1).data_) (sym e)
                record { settled = g.settled; graphic = g.graphic };
          shown = ap (λ o. shown_by (o.1).data_) e;
        }

    flush-Shows :
        ((f : F) → (fb.flush f).0 ≡ ok tt)
        → Shows (λ u. IsGraphic u.data_) (λ u. shown_by u.data_) (shown_by v.data_) (flush fb v)
    unfolding flush shown_by
    flush-Shows flushes =
        let d = v.data_ in
        let swept = refresh_rows fb 0 (rounds 0 (sub32 d.cols 1)) (rounds 0 (sub32 d.rows 1)) v in
        let drawn = refresh_cursor fb swept in
        let u : Vconsole F = record drawn { device = (fb.flush drawn.device).1 } in
        let same =
          trans-IsSame v swept drawn (refresh_rows-IsSame 0 _ _ v) (refresh_cursor-IsSame swept) in
        same-Shows (flush fb v) u
          (if_false _ _ d.is_text g.graphic
            ∙ if_false _ _ d.is_switching_mode g.settled
            ∙ ap (λ r. (r, u)) (flushes drawn.device))
          record { screen = same.screen; switching = same.switching; text = same.text }

    get_dimension-eq : get_dimension fb v ≡ ok ((shown_by v.data_).width, (shown_by v.data_).height)
    unfolding get_dimension shown_by
    get_dimension-eq = if_false _ _ v.data_.is_text g.graphic

    get_buffer-eq : get_buffer fb v ≡ ok tt
    unfolding get_buffer
    get_buffer-eq = if_false _ _ v.data_.is_text g.graphic

    get_cursor_pos-eq : get_cursor_pos fb v ≡ ok ((shown_by v.data_).col, (shown_by v.data_).row)
    unfolding get_cursor_pos shown_by
    get_cursor_pos-eq = if_false _ _ v.data_.is_text g.graphic

    cells-eq : cells fb v ≡ (shown_by v.data_).cells
    unfolding cells shown_by
    cells-eq = if_false _ _ v.data_.is_text g.graphic

  -- When the flush of the frame buffer succeeds, the console of a graphics mode follows the laws.
  pub conif_laws : ((f : F) → (fb.flush f).0 ≡ ok tt) → ConsoleLaws (conif fb)
  conif_laws flushes = record {
    IsReady = λ v. IsGraphic v.data_;
    view = λ v. shown_by v.data_;
    get_dimension_lem = get_dimension-eq;
    get_buffer_lem = get_buffer-eq;
    get_cursor_pos_lem = get_cursor_pos-eq;
    cells_lem = cells-eq;
    with_cells_ready = λ v m g. with_cells-IsGraphic v g m;
    with_cells_lem = λ v m g. with_cells_shown v g m;
    invalidate_lem = λ x0 y0 x1 y1 v g. invalidate-Shows v g x0 y0 x1 y1;
    flush_lem = λ v g. flush-Shows v g flushes;
    set_cursor_pos_lem = λ x y v left below g. set_cursor_pos-Shows v g x y;
  }

  -- The terminals on such a console that the theorems on laws are about.
  pub conif-IsSteady :
      (flushes : (f : F) → (fb.flush f).0 ≡ ok tt) (w h : ℕ) (behind : ℕ → Cell)
      (t : Tty (Vconsole F))
      → let d = t.console.data_ in
        IsGraphic d
        → (d.cols ≡ w) × (d.rows ≡ h)
        → (d.cursor_col < w) × (d.cursor_row < h)
        → ((i : ℕ) → w * h ≤ i → d.char_buffer i ≡ behind i)
        → t.data_.escape_seq_state ≡ plain
        → IsSteady (conif_laws flushes) w h behind t
  unfolding conif_laws shown_by
  conif-IsSteady flushes w h behind t g (width, height) (col, row) cells calm = record {
    sound = record {
      ready = g;
      width = width;
      height = height;
      col = col;
      row = row;
      cells = cells;
    };
    calm = calm;
  }

  pub conif-IsIdle :
      (flushes : (f : F) → (fb.flush f).0 ≡ ok tt) (t : Tty (Vconsole F))
      → let d = t.console.data_ in
        IsGraphic d
        → (d.cursor_col < 2147483648) × (d.cursor_row < 2147483648)
        → t.data_.escape_seq_state ≡ plain
        → IsIdle (conif_laws flushes) t
  unfolding conif_laws shown_by
  conif-IsIdle flushes t g (col, row) calm = record { ready = g; calm = calm; col = col; row = row }
