-- ===== src/Gpt/Confined.antt =====
-- The window of libs/gpt/src/lib.rs and the disk around it.
use i3ml_os.Prelude.{
  ℕ, ◌+◌, ◌^◌, ◌≤◌, ◌<◌, ◌≡◌, ◌≢◌, ◌⊎◌, refl, sym, ◌∙◌, ap, Bool, true, false, none, some, List,
  arith, ltb, ltb→lt, length, wrap64, Bool-cases, inl, inr,
}
use i3ml_os.Journal.{Sectors}
use i3ml_os.Journal.Chain.{peek, IsReadable}
use i3ml_os.Journal.Append.{IsWritable}
use i3ml_os.Gpt.Window.{Window, window, read_window, write_window}

false_ne_true : false ≢ true
false_ne_true e = cc

module _ {D : Type 0} (w : Window) (storage : Sectors D) where
  -- The window ends before its sector numbers wrap.
  abbrev pub IsPlaced : Type 0
  IsPlaced = w.first + w.count ≤ 2 ^ 64

  abbrev pub Outside : ℕ → Type 0
  Outside sector = (sector < w.first) ⊎ (w.first + w.count ≤ sector)

  peek_in :
      (sector : ℕ) (d : D)
      → ltb sector w.count ≡ true
      → peek (window w storage) sector d ≡ peek storage (wrap64 (w.first + sector)) d
  unfolding read_window
  peek_in sector d room = rw (room, read_window, peek) refl

  peek_out :
      (sector : ℕ) (d : D) → ltb sector w.count ≡ false → peek (window w storage) sector d ≡ none
  unfolding read_window
  peek_out sector d beyond = rw (beyond, read_window, peek) refl

  write_in :
      (sector : ℕ) (bytes : List ℕ) (d : D)
      → ltb sector w.count ≡ true
      → write_window w storage sector bytes d
        ≡ storage.write_sector (wrap64 (w.first + sector)) bytes d
  unfolding write_window
  write_in sector bytes d room = rw (room, write_window) refl

  write_out :
      (sector : ℕ) (bytes : List ℕ) (d : D)
      → ltb sector w.count ≡ false
      → write_window w storage sector bytes d ≡ (false, d)
  unfolding write_window
  write_out sector bytes d beyond = rw (beyond, write_window) refl

  module _ (readable : IsReadable storage) where
    pub read_keeps :
        (sector : ℕ) (d : D) (other : ℕ)
        → peek storage other (read_window w storage sector d).1 ≡ peek storage other d
    unfolding read_window
    read_keeps sector d other = elim (Bool-cases (ltb sector w.count)) [
      | inl room ↦ rw (room, read_window) (readable.keeps (wrap64 (w.first + sector)) d other)
      | inr beyond ↦ rw (beyond, read_window) refl
    ]

    pub window-IsReadable : IsReadable (window w storage)
    window-IsReadable = record {
      keeps = λ sector d other. kept sector d other;
      keeps_size = λ sector d. refl;
    }
      where
        kept :
            (sector : ℕ) (d : D) (other : ℕ)
            → peek (window w storage) other (read_window w storage sector d).1
              ≡ peek (window w storage) other d
        kept sector d other = elim (Bool-cases (ltb other w.count)) [
          | inl room ↦
              peek_in other (read_window w storage sector d).1 room
              ∙ (read_keeps sector d (wrap64 (w.first + other)) ∙ sym (peek_in other d room))
          | inr beyond ↦
              peek_out other (read_window w storage sector d).1 beyond
              ∙ sym (peek_out other d beyond)
        ]

  module _ (writable : IsWritable storage) (placed : IsPlaced) where
    -- No write through the window touches a sector outside of it.
    pub write_window-confined :
        (sector : ℕ) (bytes : List ℕ) (d : D) (other : ℕ)
        → Outside other
        → peek storage other (write_window w storage sector bytes d).1 ≡ peek storage other d
    write_window-confined sector bytes d other outside = elim (Bool-cases (ltb sector w.count)) [
      | inl room ↦
          let inside = ltb→lt sector w.count room in
          ap (λ (x : Bool × D). peek storage other x.1) (write_in sector bytes d room)
          ∙ writable.spares (wrap64 (w.first + sector)) other bytes d
              (λ e. absurd (apart sector other inside outside e))
      | inr beyond ↦ ap (λ (x : Bool × D). peek storage other x.1) (write_out sector bytes d beyond)
    ]
      where
        apart :
            (sector other : ℕ)
            → sector < w.count
            → Outside other
            → wrap64 (w.first + sector) ≢ other
        apart sector other inside (inl before) e = omega (arith, inside, before, placed, e)
        apart sector other inside (inr after) e = omega (arith, inside, after, placed, e)

    pub window-IsWritable : IsWritable (window w storage)
    window-IsWritable = record {
      lands = λ sector bytes d sized done. landed sector bytes d sized done;
      spares = λ sector other bytes d apart. spared sector other bytes d apart;
      spares_size = λ sector bytes d. refl;
    }
      where
        landed :
            (sector : ℕ) (bytes : List ℕ) (d : D)
            → length bytes ≡ 512
            → (write_window w storage sector bytes d).0 ≡ true
            → peek (window w storage) sector (write_window w storage sector bytes d).1 ≡ some bytes
        landed sector bytes d sized done = elim (Bool-cases (ltb sector w.count)) [
          | inl room ↦
              let out = write_in sector bytes d room in
              peek_in sector (write_window w storage sector bytes d).1 room
              ∙ (ap (λ (x : Bool × D). peek storage (wrap64 (w.first + sector)) x.1) out
                  ∙ writable.lands (wrap64 (w.first + sector)) bytes d sized
                      (sym (ap (λ (x : Bool × D). x.0) out) ∙ done))
          | inr beyond ↦ absurd (
              false_ne_true
                (sym (ap (λ (x : Bool × D). x.0) (write_out sector bytes d beyond)) ∙ done))
        ]

        no_clash :
            (sector other : ℕ)
            → sector ≢ other
            → sector < w.count
            → other < w.count
            → wrap64 (w.first + sector) ≢ wrap64 (w.first + other)
        no_clash sector other apart h k e = apart (omega (arith, h, k, placed, e))

        spared :
            (sector other : ℕ) (bytes : List ℕ) (d : D)
            → sector ≢ other
            → peek (window w storage) other (write_window w storage sector bytes d).1
              ≡ peek (window w storage) other d
        spared sector other bytes d apart = elim (Bool-cases (ltb other w.count)) [
          | inr beyond ↦
              peek_out other (write_window w storage sector bytes d).1 beyond
              ∙ sym (peek_out other d beyond)
          | inl within ↦
              peek_in other (write_window w storage sector bytes d).1 within
              ∙ (reached sector other bytes d apart within ∙ sym (peek_in other d within))
        ]
          where
            reached :
                (sector other : ℕ) (bytes : List ℕ) (d : D)
                → sector ≢ other
                → ltb other w.count ≡ true
                → peek storage (wrap64 (w.first + other)) (write_window w storage sector bytes d).1
                  ≡ peek storage (wrap64 (w.first + other)) d
            reached sector other bytes d apart within = elim (Bool-cases (ltb sector w.count)) [
              | inl room ↦
                  ap (λ (x : Bool × D). peek storage (wrap64 (w.first + other)) x.1)
                    (write_in sector bytes d room)
                  ∙ writable.spares (wrap64 (w.first + sector)) (wrap64 (w.first + other)) bytes d (
                      no_clash sector other apart (ltb→lt sector w.count room)
                        (ltb→lt other w.count within))
              | inr beyond ↦
                  ap (λ (x : Bool × D). peek storage (wrap64 (w.first + other)) x.1)
                    (write_out sector bytes d beyond)
            ]
