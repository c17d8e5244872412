-- ===== src/Display/Framebuffer.antt =====
-- src/display/linear_framebuffer.rs. The buffer is a list of `u32` pixels, row by row.
use kermol.Common.{ℕ, zero, suc, ◌+◌, ◌-◌, ◌/◌, ◌%◌, ◌^◌, Bool, false, ◌&&◌}
use kermol.Common.{if◌then◌else◌, ltb, leb, ◌==◌, List, [], ◌∷◌, ◌++◌, length, set, take, drop}
use kermol.Common.{ok, err, index_out_of_range, ◌>>=◌, Call, with_state, add64, sub64, mul64}
use kermol.Common.{ensure, fill}

pub record LinearFramebuffer : Type 0 where
  -- Interpret as (width, height).
  pub dimensions : ℕ × ℕ
  pub buffer : List ℕ

pub data LinearFramebufferError : Type 0 where
  unsupported_pixel_depth out_of_bounds : LinearFramebufferError

-- `plot(x, y, color)`.
unfoldable pub plot {ℓ} : {E : Type ℓ} → ℕ → ℕ → ℕ → Call LinearFramebuffer E (Unit {0})
plot x y color self = do
  (rows, self) ← with_state self (mul64 y self.dimensions.0)
  (offset, self) ← with_state self (add64 x rows)
  (_, self) ← with_state self (ensure (ltb offset (length self.buffer)) index_out_of_range)
  ok (tt, record self { buffer = set self.buffer offset color })

-- The arguments of `plot_glyph`, its bitmap apart.
pub record Place : Type 0 where
  pub x : ℕ
  pub y : ℕ
  pub width : ℕ
  pub height : ℕ
  pub color : ℕ
  pub background : ℕ

-- `glyph_byte >> (7 - bit) & 1`, and the color that it selects.
abbrev pub used_color : Place → ℕ → ℕ → ℕ
used_color p byte bit = if byte / 2 ^ (7 - bit) % 2 == 0 then p.background else p.color

-- `current_x` and `current_y`, and whether `break 'outer` was met.
pub record Pen : Type 0 where
  pub current_x : ℕ
  pub current_y : ℕ
  pub stopped : Bool

-- `for bit in 0..8`, with `count` bits to go.
unfoldable pub plot_bits {ℓ} : {E : Type ℓ} → Place → ℕ → ℕ → ℕ → Pen → Call LinearFramebuffer E Pen
unfolding plot
plot_bits p byte zero bit pen self = ok (pen, self)
plot_bits p byte (suc count) bit pen self = do
  (at_x, self) ← with_state self (add64 pen.current_x p.x)
  (at_y, self) ← with_state self (add64 pen.current_y p.y)
  (_, self) ← plot at_x at_y (used_color p byte bit) self
  (next_x, self) ← with_state self (add64 pen.current_x 1)
  let wraps = leb p.width next_x
  (next_y, self) ← with_state self (add64 pen.current_y (if wraps then 1 else 0))
  let stopped = wraps && leb p.height next_y
  let pen : Pen = record {
    current_x = if wraps then 0 else next_x;
    current_y = next_y;
    stopped = stopped;
  }
  if stopped then ok (pen, self) else plot_bits p byte count (bit + 1) pen self

-- `'outer: while let Some(glyph_byte)`.
unfoldable pub plot_bytes {ℓ} :
    {E : Type ℓ} → Place → List ℕ → Pen → Call LinearFramebuffer E (Unit {0})
unfolding plot_bits
plot_bytes p [] pen self = ok (tt, self)
plot_bytes p (byte ∷ bytes) pen self = do
  (pen, self) ← plot_bits p byte 8 0 pen self
  if pen.stopped then ok (tt, self) else plot_bytes p bytes pen self

unfoldable pub plot_glyph :
    Place → List ℕ → Call LinearFramebuffer LinearFramebufferError (Unit {0})
unfolding plot_bytes
plot_glyph p glyph_bitmap self = do
  (right, self) ← with_state self (add64 p.x p.width)
  if ltb self.dimensions.0 right then err (out_of_bounds, self) else do
    (bottom, self) ← with_state self (add64 p.y p.height)
    if ltb self.dimensions.1 bottom
        then err (out_of_bounds, self)
        else plot_bytes p glyph_bitmap (record { current_x = 0; current_y = 0; stopped = false })
            self

unfoldable pub clear {ℓ} : {E : Type ℓ} → ℕ → Call LinearFramebuffer E (Unit {0})
clear color self = ok (tt, record self { buffer = fill self.buffer 0 (length self.buffer) color })

-- `ptr::copy(start + from, start, count)`, whose ranges may overlap.
abbrev pub copy_down : List ℕ → ℕ → ℕ → List ℕ
copy_down buffer from count = take count (drop from buffer) ++ drop count buffer

-- The writes of `scroll`, with `count` to go.
abbrev pub write_from : ℕ → ℕ → ℕ → List ℕ → List ℕ
write_from at zero color buffer = buffer
write_from at (suc count) color buffer = write_from (suc at) count color (set buffer at color)

-- The raw copy and writes are within the buffer exactly when its length is the dimensions'
-- product; the model does not describe them elsewhere.
unfoldable pub scroll {ℓ} : {E : Type ℓ} → ℕ → ℕ → Call LinearFramebuffer E (Unit {0})
scroll layers color self = do
  (skipped, self) ← with_state self (mul64 layers self.dimensions.0)
  (kept_rows, self) ← with_state self (sub64 self.dimensions.1 layers)
  (kept, self) ← with_state self (mul64 self.dimensions.0 kept_rows)
  let buffer = copy_down self.buffer skipped kept
  ok (tt, record self { buffer = write_from kept skipped color buffer })
