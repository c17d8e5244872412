-- ===== src/Display/Reports.antt =====
-- The states that the log writer of src/display/vga_text_writer.rs reaches, and what the panic
-- handler of src/lib.rs does in them.
use kermol.Common.{ℕ, ◌*◌, ◌≤◌, ◌<◌, ◌≡◌, refl, sym, ◌∙◌, subst, word, arith}
use kermol.Common.{some, none, List, [], ◌∷◌, ◌++◌, length, true, Outcome, ok, panic}
use kermol.Common.{unwrap_failed}
use kermol.Display.Text.{VgaColor, as_u32, light_red, black}
use kermol.Display.Writer
use kermol.Display.Writer.{VgaWriter, write_string, default_color}
use kermol.Display.Log.{IsWriter, Writes, wrote, write_string-Writes}
use kermol.Display.Console.{Console, Framebuffer, init_kwriter, linear_framebuffer, print, kprint}
use kermol.Display.Console.{kprint_color, kwriter_set_color, kwriter_set_bg, panic_handler}

module _ (width height : ℕ) (small : height * width < word) (narrow : width < word)
    (low : height < word) (E : Type 0) where
  abbrev pub Screen : VgaWriter → Type 0
  Screen w = IsWriter width height small narrow low w

  -- The writer is set up, or panics go to the serial port only.
  pub data IsConsole (c : Console) : Type 0 where
    early : c.kwriter ≡ none → c.panic_level ≡ 0 → IsConsole c
    ready : (w : VgaWriter) → c.kwriter ≡ some w → c.panic_level ≡ 1 → Screen w → IsConsole c

  -- The framebuffer that `init_kwriter` uses.
  pub record IsDisplay (fb : Framebuffer) : Type 0 where
    pub deep : fb.bpp ≡ 32
    pub wide : fb.width ≡ width
    pub tall : fb.height ≡ height
    pub whole : length fb.pixels ≡ height * width
    pub cell : (8 ≤ width) × (16 ≤ height)

  -- The calls that the kernel makes, the setup before all that print.
  pub data Reaches : Console → Type 0 where
    start : Reaches (record { kwriter = none; panic_level = 0; serial = [] })
    initialised :
        (fb : Framebuffer) (fbs : List Framebuffer) (c c' : Console)
        → Reaches c
        → c.kwriter ≡ none
        → IsDisplay fb
        → init_kwriter {E = E} (some (fb ∷ fbs)) c ≡ ok c'
        → Reaches c'
    printed :
        (args : List ℕ) (c c' : Console) → Reaches c → kprint {E = E} args c ≡ ok c' → Reaches c'
    printed_color :
        (args : List ℕ) (color : VgaColor) (c c' : Console)
        → Reaches c
        → kprint_color {E = E} args color c ≡ ok c'
        → Reaches c'
    colored :
        (color : ℕ) (c c' : Console)
        → Reaches c
        → kwriter_set_color {E = E} color c ≡ ok c'
        → Reaches c'
    on_background :
        (color : ℕ) (c c' : Console)
        → Reaches c
        → kwriter_set_bg {E = E} color c ≡ ok c'
        → Reaches c'

  pub recolored :
      (w : VgaWriter) (color : ℕ) → Screen w → Screen (record w { default_text = color })
  recolored w color v = record { screen = v.screen; column = v.column; row = v.row }

  -- Printing returns, and the writer stays on its screen.
  pub print-returns :
      (args : List ℕ) (w : VgaWriter)
      → Screen w
      → (w' : VgaWriter) × (print {E = E} args w ≡ ok w') × Screen w'
  print-returns args w v =
      let r = write_string-Writes width height small narrow low (Unit {0}) args w v in go r
    where
      go :
          Writes width height small narrow low (Unit {0}) (write_string args w)
          → (w' : VgaWriter) × (print {E = E} args w ≡ ok w') × Screen w'
      go (wrote w' e v') = (w', rw (e, print) refl, v')

  module _ (c : Console) (w : VgaWriter) (set_up : c.kwriter ≡ some w) where
    pub kprint-print :
        (args : List ℕ) (w' : VgaWriter)
        → print {E = E} args w ≡ ok w'
        → kprint {E = E} args c ≡ ok (record c { kwriter = some w' })
    unfolding kprint
    kprint-print args w' e = rw (set_up, e) refl

    kprint_color-print :
        (args : List ℕ) (color : VgaColor) (w' : VgaWriter)
        → print {E = E} args (record w { default_text = as_u32 color }) ≡ ok w'
        → kprint_color {E = E} args color c
          ≡ ok (record c { kwriter = some (record w' { default_text = as_u32 default_color }) })
    unfolding kprint_color
    kprint_color-print args color w' e = rw (set_up, e) refl

    pub set_color_lem :
        (color : ℕ)
        → kwriter_set_color {E = E} color c
          ≡ ok (record c { kwriter = some (record w { default_text = color }) })
    unfolding kwriter_set_color
    set_color_lem color = rw set_up refl

    set_bg_lem :
        (color : ℕ)
        → kwriter_set_bg {E = E} color c
          ≡ ok (record c { kwriter = some (record w { default_background = color }) })
    unfolding kwriter_set_bg
    set_bg_lem color = rw set_up refl

  -- Before the setup nothing can be printed.
  module _ (c : Console) (unset : c.kwriter ≡ none) where
    kprint-early : (args : List ℕ) → kprint {E = E} args c ≡ panic unwrap_failed
    unfolding kprint
    kprint-early args = rw unset refl

    kprint_color-early :
        (args : List ℕ) (color : VgaColor) → kprint_color {E = E} args color c ≡ panic unwrap_failed
    unfolding kprint_color
    kprint_color-early args color = rw unset refl

    set_color-early : (color : ℕ) → kwriter_set_color {E = E} color c ≡ panic unwrap_failed
    unfolding kwriter_set_color
    set_color-early color = rw unset refl

    set_bg-early : (color : ℕ) → kwriter_set_bg {E = E} color c ≡ panic unwrap_failed
    unfolding kwriter_set_bg
    set_bg-early color = rw unset refl

  -- A call that panics before the setup, and keeps a writer on its screen after it.
  pub same-IsConsole :
      (c c' : Console) (r : Outcome E Console)
      → IsConsole c
      → r ≡ ok c'
      → (c.kwriter ≡ none → r ≡ panic unwrap_failed)
      → ((w : VgaWriter)
          → c.kwriter ≡ some w
          → Screen w
          → (w' : VgaWriter) × (r ≡ ok (record c { kwriter = some w' })) × Screen w')
      → IsConsole c'
  same-IsConsole c c' r (early unset level) e before after =
      absurd (let z = sym e ∙ before unset in ground (arith, z))
  same-IsConsole c c' r (ready w set_up level v) e before after =
      let (w', q, v') = after w set_up v in
      let z = sym q ∙ e in
      let same : record c { kwriter = some w' } ≡ c' = ground (arith, z) in
      subst IsConsole same (ready w' refl level v')

  abbrev pub first_writer : List ℕ → VgaWriter
  first_writer pixels =
      Writer.new (record { dimensions = (width, height); buffer = pixels }) true
        (as_u32 default_color) (as_u32 black)

  linear_framebuffer-returns :
      (fb : Framebuffer)
      → IsDisplay fb
      → linear_framebuffer fb ≡ ok (record { dimensions = (width, height); buffer = fb.pixels })
  unfolding linear_framebuffer
  linear_framebuffer-returns fb d =
      let fits : fb.width * fb.height < word = rw (d.wide, d.tall) (omega (arith, small)) in
      ground (arith, d.deep, d.wide, d.tall, fits)

  pub init_kwriter-returns :
      (fb : Framebuffer) (fbs : List Framebuffer) (c : Console)
      → IsDisplay fb
      → c.kwriter ≡ none
      → c.panic_level ≡ 0
      → init_kwriter {E = E} (some (fb ∷ fbs)) c
        ≡ ok (record c { kwriter = some (first_writer fb.pixels); panic_level = 1 })
  unfolding init_kwriter
  init_kwriter-returns fb fbs c d unset level =
      rw (linear_framebuffer-returns fb d, unset, level) refl

  pub first_writer-IsWriter : (fb : Framebuffer) → IsDisplay fb → Screen (first_writer fb.pixels)
  first_writer-IsWriter fb d = record {
    screen = record { wide = refl; tall = refl; whole = d.whole };
    column = omega (arith, d.cell);
    row = omega (arith, d.cell);
  }

  init_kwriter-IsConsole :
      (fb : Framebuffer) (fbs : List Framebuffer) (c c' : Console)
      → IsConsole c
      → c.kwriter ≡ none
      → IsDisplay fb
      → init_kwriter {E = E} (some (fb ∷ fbs)) c ≡ ok c'
      → IsConsole c'
  init_kwriter-IsConsole fb fbs c c' (ready w set_up level v) unset d e =
      absurd (let z = sym unset ∙ set_up in ground (arith, z))
  init_kwriter-IsConsole fb fbs c c' (early _ level) unset d e =
      let z = sym (init_kwriter-returns fb fbs c d unset level) ∙ e in
      let same : record c { kwriter = some (first_writer fb.pixels); panic_level = 1 } ≡ c' =
        ground (arith, z) in
      subst IsConsole same (ready (first_writer fb.pixels) refl refl (first_writer-IsWriter fb d))

  Reaches-IsConsole : (c : Console) → Reaches c → IsConsole c
  Reaches-IsConsole c start = early refl refl
  Reaches-IsConsole c (initialised fb fbs before c' reached unset d e) =
      init_kwriter-IsConsole fb fbs before c (Reaches-IsConsole before reached) unset d e
  Reaches-IsConsole c (printed args before c' reached e) =
      same-IsConsole before c (kprint args before) (Reaches-IsConsole before reached) e
        (λ unset. kprint-early before unset args)
        (λ w set_up v.
          let (w', q, v') = print-returns args w v in
          (w', kprint-print before w set_up args w' q, v'))
  Reaches-IsConsole c (printed_color args color before c' reached e) =
      same-IsConsole before c (kprint_color args color before) (Reaches-IsConsole before reached) e
        (λ unset. kprint_color-early before unset args color)
        (λ w set_up v.
          let (w', q, v') = print-returns args _ (recolored w (as_u32 color) v) in
          (
            record w' { default_text = as_u32 default_color },
            kprint_color-print before w set_up args color w' q,
            recolored w' (as_u32 default_color) v',
          ))
  Reaches-IsConsole c (colored color before c' reached e) =
      same-IsConsole before c (kwriter_set_color color before) (Reaches-IsConsole before reached) e
        (λ unset. set_color-early before unset color)
        (λ w set_up v. (
          record w { default_text = color },
          set_color_lem before w set_up color,
          recolored w color v,
        ))
  Reaches-IsConsole c (on_background color before c' reached e) =
      same-IsConsole before c (kwriter_set_bg color before) (Reaches-IsConsole before reached) e
        (λ unset. set_bg-early before unset color)
        (λ w set_up v. (
          record w { default_background = color },
          set_bg_lem before w set_up color,
          record { screen = v.screen; column = v.column; row = v.row },
        ))

  -- What a panic leaves: the message on the serial port, and the log writer on its screen if there
  -- is one.
  pub data Reports (info : List ℕ) (c : Console) (r : Outcome E Console) : Type 0 where
    reported :
        (c' : Console) → r ≡ ok c' → c'.serial ≡ info ∷ c.serial → IsConsole c' → Reports info c r

  panic_handler-early :
      (info : List ℕ) (c : Console)
      → c.panic_level ≡ 0
      → panic_handler {E = E} info c ≡ ok (record c { serial = info ∷ c.serial })
  unfolding panic_handler
  panic_handler-early info c level = rw level refl

  pub panic_handler-ready :
      (info : List ℕ) (c : Console) (w w' : VgaWriter)
      → c.panic_level ≡ 1
      → c.kwriter ≡ some w
      → print {E = E} (info ++ 10 ∷ []) (record w { default_text = as_u32 light_red }) ≡ ok w'
      → panic_handler {E = E} info c ≡ ok (record c { serial = info ∷ c.serial; kwriter = some w' })
  unfolding panic_handler
  panic_handler-ready info c w w' level set_up e = rw (level, set_up, e) refl

  pub handler-Reports :
      (info : List ℕ) (c : Console) → IsConsole c → Reports info c (panic_handler info c)
  handler-Reports info c (early unset level) =
      reported (record c { serial = info ∷ c.serial }) (panic_handler-early info c level) refl
        (early unset level)
  handler-Reports info c (ready w set_up level v) =
      let (w', q, v') = print-returns (info ++ 10 ∷ []) _ (recolored w (as_u32 light_red) v) in
      reported (record c { serial = info ∷ c.serial; kwriter = some w' })
        (panic_handler-ready info c w w' level set_up q) refl (ready w' refl level v')

  -- In every state that the log writer reaches from the start by `init_kwriter`, called once with a
  -- framebuffer of 32 bits a pixel and at least one text cell, and by printing and setting colors,
  -- the panic handler returns without a panic of its own, the message is the last line on the
  -- serial port, and the log writer, if there is one, is still on its screen.
  pub panic_handler-Reports :
      (info : List ℕ) (c : Console) → Reaches c → Reports info c (panic_handler info c)
  panic_handler-Reports info c reached = handler-Reports info c (Reaches-IsConsole c reached)
