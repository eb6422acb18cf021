-- ===== src/Sha256/Absorb.antt =====
-- The hasher against the bytes that it was fed: the blocks that are full are compressed, and the rest
-- is buffered.
use i3ml_os.Prelude.{
  ℕ, zero, suc, ◌+◌, ◌-◌, ◌*◌, ◌≤◌, ◌<◌, ◌≡◌, refl, sym, ◌∙◌, ap, subst, true, false, List, [], ◌∷◌,
  ◌++◌, arith, length, take, drop, wrap64, min, leb, leb→le, ==_iff, ◌==◌, length-drop,
  length-append, length-take, take_all, take-append_at, drop-append_at, take-append-drop, drop_all,
  Bool-cases, inl, inr,
}
use mathlib.Core.List.{append_assoc, append-nil}
use i3ml_os.Sha256.{Hasher, hasher_new, copy_into, fill_buffer, whole_blocks, absorb_rest, update}
use i3ml_os.Sha256.Compress.{Words, initial_state, compress}
use i3ml_os.Sha256.Reference.{hash_blocks, hash_blocks-snoc, hash_blocks-append}

-- The hasher holds the bytes: `blocks` full blocks went into the state, and the others wait.
pub record Absorbed (h : Hasher) (bytes : List ℕ) : Type 0 where
  pub blocks : ℕ
  pub whole : List ℕ
  pub pending : List ℕ
  pub split : bytes ≡ whole ++ pending
  pub whole_size : length whole ≡ 64 * blocks
  pub pending_size : length pending ≡ h.buffered
  pub room : h.buffered < 64
  pub state : h.state ≡ hash_blocks blocks initial_state whole
  pub buffer_size : length h.buffer ≡ 64
  pub buffer : take h.buffered h.buffer ≡ pending

pub copy_into-size :
    (at : ℕ) (bytes into : List ℕ)
    → at + length bytes ≤ length into
    → length (copy_into at bytes into) ≡ length into
copy_into-size at bytes into h = omega (
  arith,
  length-append (take at into) (bytes ++ drop (at + length bytes) into),
  length-append bytes (drop (at + length bytes) into),
  length-take at into,
  length-drop (at + length bytes) into,
)

pub take-copy_into :
    (at : ℕ) (bytes into : List ℕ)
    → at + length bytes ≤ length into
    → take (at + length bytes) (copy_into at bytes into) ≡ take at into ++ bytes
take-copy_into at bytes into h =
    let front : length (take at into ++ bytes) ≡ at + length bytes =
      omega (arith, length-append (take at into) bytes, length-take at into) in
    ap (take (at + length bytes))
      (sym (append_assoc (take at into) bytes (drop (at + length bytes) into)))
    ∙ take-append_at (at + length bytes) (take at into ++ bytes) (drop (at + length bytes) into)
        front

pub hasher_new-Absorbed : Absorbed hasher_new []
unfolding hash_blocks
hasher_new-Absorbed = record {
  blocks = 0;
  whole = [];
  pending = [];
  split = refl;
  whole_size = omega arith;
  pending_size = refl;
  room = omega arith;
  state = refl;
  buffer_size = refl;
  buffer = refl;
}

-- What the loop over whole blocks leaves: fewer than 64 bytes, and the state after the others.
pub record Eaten (state : Words) (bytes : List ℕ) (out : List ℕ × Words) : Type 0 where
  pub blocks : ℕ
  pub whole : List ℕ
  pub split : bytes ≡ whole ++ out.0
  pub whole_size : length whole ≡ 64 * blocks
  pub short : length out.0 < 64
  pub state_after : out.1 ≡ hash_blocks blocks state whole

whole_blocks-Eaten :
    (rounds : ℕ) (bytes : List ℕ) (state : Words)
    → length bytes ≤ rounds
    → Eaten state bytes (whole_blocks rounds bytes state)
unfolding whole_blocks hash_blocks
whole_blocks-Eaten zero bytes state h = record {
  blocks = 0;
  whole = [];
  split = refl;
  whole_size = omega arith;
  short = omega (arith, h);
  state_after = refl;
}
whole_blocks-Eaten (suc rounds) bytes state h = elim (Bool-cases (leb 64 (length bytes))) [
  | inl more ↦
      let enough = leb→le 64 (length bytes) more in
      let sized : length (take 64 bytes) ≡ 64 = omega (arith, length-take 64 bytes, enough) in
      let ih =
        whole_blocks-Eaten rounds (drop 64 bytes) (compress state (take 64 bytes))
          (omega (arith, length-drop 64 bytes, enough, h)) in
      rw (more, whole_blocks)
        (record {
          blocks = suc ih.blocks;
          whole = take 64 bytes ++ ih.whole;
          split =
              sym (take-append-drop 64 bytes)
              ∙ (ap (λ (t : List ℕ). take 64 bytes ++ t) ih.split
                  ∙ sym (append_assoc (take 64 bytes) ih.whole _));
          whole_size = omega (arith, length-append (take 64 bytes) ih.whole, sized, ih.whole_size);
          short = ih.short;
          state_after = ih.state_after ∙ (λ i.
              hash_blocks ih.blocks
                (compress state (sym (take-append_at 64 (take 64 bytes) ih.whole sized) i))
                (sym (drop-append_at 64 (take 64 bytes) ih.whole sized) i));
        })
  | inr less ↦
      rw (less, whole_blocks)
        (record {
          blocks = 0;
          whole = [];
          split = refl;
          whole_size = omega arith;
          short = ground (arith, less);
          state_after = refl;
        })
]

nil_of_length : (xs : List ℕ) → length xs ≡ 0 → [] ≡ xs
nil_of_length [] h = refl
nil_of_length (x ∷ xs) h = absurd (omega arith)

-- Putting blocks behind blocks.
Eaten-joined :
    (n : ℕ) (whole bytes : List ℕ) (state : Words) (out : List ℕ × Words)
    → state ≡ hash_blocks n initial_state whole
    → length whole ≡ 64 * n
    → (e : Eaten state bytes out)
    → out.1 ≡ hash_blocks (n + e.blocks) initial_state (whole ++ e.whole)
Eaten-joined n whole bytes state out at size e =
    e.state_after
    ∙ (ap (λ (w : Words). hash_blocks e.blocks w e.whole) at
        ∙ sym (hash_blocks-append n e.blocks initial_state whole e.whole size))

-- With nothing in the buffer, the rest of the input is absorbed.
absorb_rest-Absorbed :
    (h : Hasher) (n : ℕ) (whole rest : List ℕ)
    → h.buffered ≡ 0
    → length h.buffer ≡ 64
    → h.state ≡ hash_blocks n initial_state whole
    → length whole ≡ 64 * n
    → Absorbed (absorb_rest rest h) (whole ++ rest)
unfolding absorb_rest
absorb_rest-Absorbed h n whole rest empty sized state size =
    let e = whole_blocks-Eaten (length rest) rest h.state (omega arith) in
    let out = whole_blocks (length rest) rest h.state in
    let joined = Eaten-joined n whole rest h.state out state size e in
    let split : whole ++ rest ≡ (whole ++ e.whole) ++ out.0 =
      ap (λ (t : List ℕ). whole ++ t) e.split ∙ sym (append_assoc whole e.whole out.0) in
    let count : length (whole ++ e.whole) ≡ 64 * (n + e.blocks) =
      omega (arith, length-append whole e.whole, size, e.whole_size) in
    elim (Bool-cases (length out.0 == 0)) [
      | inl done ↦
          rw (done, absorb_rest)
            (record {
              blocks = n + e.blocks;
              whole = whole ++ e.whole;
              pending = out.0;
              split = split;
              whole_size = count;
              pending_size = (==_iff (length out.0) 0).0 done ∙ sym empty;
              room = omega (arith, empty);
              state = joined;
              buffer_size = sized;
              buffer = rw empty (nil_of_length out.0 ((==_iff (length out.0) 0).0 done));
            })
      | inr tail ↦
          rw (tail, absorb_rest)
            (record {
              blocks = n + e.blocks;
              whole = whole ++ e.whole;
              pending = out.0;
              split = split;
              whole_size = count;
              pending_size = refl;
              room = e.short;
              state = joined;
              buffer_size = copy_into-size 0 out.0 h.buffer (omega (arith, sized, e.short)) ∙ sized;
              buffer = take-append_at (length out.0) out.0 (drop (0 + length out.0) h.buffer) refl;
            })
    ]

absorb_rest-nil : (h : Hasher) → absorb_rest [] h ≡ h
unfolding absorb_rest whole_blocks
absorb_rest-nil h = refl

-- One input, with what waits in the buffer before it.
module _ (input bytes : List ℕ) (h : Hasher) (a : Absorbed h bytes) where
  abbrev counted : Hasher
  counted = record h { total_bytes = wrap64 (h.total_bytes + length input) }

  abbrev count : ℕ
  count = min (64 - h.buffered) (length input)

  abbrev filled : List ℕ
  filled = copy_into h.buffered (take count input) h.buffer

  filled-take : take (h.buffered + count) filled ≡ a.pending ++ take count input
  filled-take =
      let len = length-take count input in
      let size : count ≡ length (take count input) = omega (arith, len) in
      ap (λ (n : ℕ). take (h.buffered + n) filled) size
      ∙ (take-copy_into h.buffered (take count input) h.buffer
            (omega (arith, len, a.buffer_size, a.room))
          ∙ ap (λ (t : List ℕ). t ++ take count input) a.buffer)

  filled-size : length filled ≡ 64
  filled-size =
      copy_into-size h.buffered (take count input) h.buffer
        (omega (arith, length-take count input, a.buffer_size, a.room))
      ∙ a.buffer_size

  update_empty : (h.buffered == 0) ≡ true → Absorbed (update input h) (bytes ++ input)
  unfolding update fill_buffer
  update_empty empty =
      let out : update input h ≡ absorb_rest input counted = rw (empty, fill_buffer, update) refl in
      let zero_buffered = (==_iff h.buffered 0).0 empty in
      let none_pending = nil_of_length a.pending (a.pending_size ∙ zero_buffered) in
      let all_whole : a.whole ≡ bytes =
        sym (append-nil a.whole) ∙ (ap (λ (t : List ℕ). a.whole ++ t) none_pending ∙ sym a.split) in
      subst (λ (x : Hasher). Absorbed x (bytes ++ input)) (sym out)
        (subst (λ (t : List ℕ). Absorbed (absorb_rest input counted) (t ++ input)) all_whole
          (absorb_rest-Absorbed counted a.blocks a.whole input zero_buffered a.buffer_size a.state
            a.whole_size))

  update_full :
      (h.buffered == 0) ≡ false
      → (h.buffered + count == 64) ≡ true
      → Absorbed (update input h) (bytes ++ input)
  unfolding update fill_buffer
  update_full waiting full =
      let h₂ : Hasher = record counted {
        state = compress h.state filled;
        buffer = filled;
        buffered = 0;
      } in
      let out : update input h ≡ absorb_rest (drop count input) h₂ =
        rw (waiting, full, fill_buffer, update) refl in
      let brim = (==_iff (h.buffered + count) 64).0 full in
      let block : filled ≡ a.pending ++ take count input =
        sym (take_all 64 filled (omega (arith, filled-size)))
        ∙ (ap (λ (n : ℕ). take n filled) (sym brim) ∙ filled-take) in
      let state : compress h.state filled
          ≡ hash_blocks (suc a.blocks) initial_state (a.whole ++ filled) =
        ap (λ (w : Words). compress w filled) a.state
        ∙ sym (hash_blocks-snoc a.blocks initial_state a.whole filled a.whole_size filled-size) in
      let all : (a.whole ++ filled) ++ drop count input ≡ bytes ++ input =
        ap (λ (t : List ℕ). (a.whole ++ t) ++ drop count input) block
        ∙ (append_assoc a.whole (a.pending ++ take count input) (drop count input)
            ∙ (ap (λ (t : List ℕ). a.whole ++ t)
                  (append_assoc a.pending (take count input) (drop count input))
                ∙ (ap (λ (t : List ℕ). a.whole ++ (a.pending ++ t)) (take-append-drop count input)
                    ∙ (sym (append_assoc a.whole a.pending input)
                        ∙ ap (λ (t : List ℕ). t ++ input) (sym a.split))))) in
      let size : length (a.whole ++ filled) ≡ 64 * suc a.blocks =
        omega (arith, length-append a.whole filled, a.whole_size, filled-size) in
      subst (λ (x : Hasher). Absorbed x (bytes ++ input)) (sym out)
        (subst (λ (t : List ℕ). Absorbed (absorb_rest (drop count input) h₂) t) all
          (absorb_rest-Absorbed h₂ (suc a.blocks) (a.whole ++ filled) (drop count input) refl
            filled-size state size))

  update_part :
      (h.buffered == 0) ≡ false
      → (h.buffered + count == 64) ≡ false
      → Absorbed (update input h) (bytes ++ input)
  unfolding update fill_buffer
  update_part waiting part =
      let h₂ : Hasher = record counted { buffer = filled; buffered = h.buffered + count } in
      let short = below part in
      let none_left : drop count input ≡ [] = drop_all input count (omega (arith, short, a.room)) in
      let all_taken : take count input ≡ input =
        take_all count input (omega (arith, short, a.room)) in
      let out : update input h ≡ absorb_rest (drop count input) h₂ =
        rw (waiting, part, fill_buffer, update) refl in
      let end : update input h ≡ h₂ =
        out ∙ (ap (λ (t : List ℕ). absorb_rest t h₂) none_left ∙ absorb_rest-nil h₂) in
      subst (λ (x : Hasher). Absorbed x (bytes ++ input)) (sym end)
        (record {
          blocks = a.blocks;
          whole = a.whole;
          pending = a.pending ++ input;
          split = ap (λ (t : List ℕ). t ++ input) a.split ∙ append_assoc a.whole a.pending input;
          whole_size = a.whole_size;
          pending_size =
              omega (arith, length-append a.pending input, a.pending_size, short, a.room);
          room = short;
          state = a.state;
          buffer_size = filled-size;
          buffer = filled-take ∙ ap (λ (t : List ℕ). a.pending ++ t) all_taken;
        })
    where
      below : (h.buffered + count == 64) ≡ false → h.buffered + count < 64
      below part = ground (arith, a.room)

  -- `update` absorbs its input behind what was absorbed before, however the input was cut.
  pub update-Absorbed : Absorbed (update input h) (bytes ++ input)
  update-Absorbed = elim (Bool-cases (h.buffered == 0)) [
    | inl empty ↦ update_empty empty
    | inr waiting ↦ elim (Bool-cases (h.buffered + count == 64)) [
      | inl full ↦ update_full waiting full
      | inr part ↦ update_part waiting part
    ]
  ]
