-- ===== src/Sijil/History.antt =====
-- The ring of nawa/sijil/src/lib.rs and the journal's history: every entry ever recorded, oldest first.
use i3ml_os.Prelude.{
  ℕ, zero, suc, ◌+◌, ◌-◌, ◌%◌, ◌^◌, ◌≤◌, ◌<◌, ◌≡◌, ◌≢◌, refl, sym, ◌∙◌, inl, inr, Option, none,
  some, List, [], ◌∷◌, ◌++◌, arith, length, set, get_elem?, drop, length-append, length-set,
  get_elem?-append_left, get_elem?-append_end, get_elem?-some, get_elem?-append_cases, drop_all,
  drop_step, ==_iff, length-replicate, dec_lt,
}
use i3ml_os.VecLite.{item}
use i3ml_os.VecLite.Laws.{item-set_self, item-set_ne}
use i3ml_os.Sijil.{Entry, Ring, capacity, ring_new, write_entry, visit_from, for_each}

-- The ring stands for the history: the newest entries lie in their slots, numbered from 1 on.
pub record Represents (ring : Ring) (history : List Entry) : Type 0 where
  pub room : length ring.entries ≡ capacity
  pub counted : ring.next_sequence ≡ length history + 1
  pub totalled : ring.written ≡ length history
  pub kept :
      (k : ℕ)
      → k < length history
      → length history ≤ k + capacity
      → item ring.entries (k % capacity) ≡ get_elem? history k
  pub numbered : (k : ℕ) (e : Entry) → get_elem? history k ≡ some e → e.sequence ≡ k + 1

-- What is recorded: the entry with its number.
abbrev pub stamped : Entry → ℕ → Entry
stamped entry n = record entry { sequence = n }

slot_ne : (k n : ℕ) → k < n → n < k + capacity → n % capacity ≢ k % capacity
slot_ne k n h l = omega arith

write_entry-kept :
    (entry : Entry) (ring : Ring) (history : List Entry) (k : ℕ)
    → Represents ring history
    → k < length history + 1
    → length history + 1 ≤ k + capacity
    → item (set ring.entries (length history % capacity) (some entry)) (k % capacity)
      ≡ get_elem? (history ++ (entry ∷ [])) k
write_entry-kept entry ring history k r h l = elim (dec_lt k (length history)) [
  | yes old ↦
      rw
        (
          item-set_ne ring.entries (length history % capacity) (k % capacity) (some entry)
              (slot_ne k (length history) old (omega arith)),
          get_elem?-append_left history (entry ∷ []) k old,
        )
        (r.kept k old (omega arith))
  | no new ↦
      let e : k ≡ length history = omega arith in
      rw e (
        item-set_self ring.entries (length history % capacity) (some entry) (omega (arith, r.room))
        ∙ sym (get_elem?-append_end history entry))
]

write_entry-numbered :
    (entry : Entry) (ring : Ring) (history : List Entry) (k : ℕ) (e : Entry)
    → Represents ring history
    → entry.sequence ≡ length history + 1
    → get_elem? (history ++ (entry ∷ [])) k ≡ some e
    → e.sequence ≡ k + 1
write_entry-numbered entry ring history k e r n h =
    elim (get_elem?-append_cases history entry k h) [
      | inl old ↦ r.numbered k e old
      | inr (at, same) ↦ ground arith
    ]

-- Recording into a ring that stands for a history adds one entry, stamped with the next number, at
-- the end of that history, as long as the numbers stay below 2 ^ 64.
pub write_entry-Represents :
    (entry : Entry) (ring : Ring) (history : List Entry)
    → length history + 2 < 2 ^ 64
    → Represents ring history
    → ((write_entry entry ring).0 ≡ length history + 1)
      × Represents (write_entry entry ring).1 (history ++ (stamped entry (length history + 1) ∷ []))
unfolding write_entry
write_entry-Represents entry ring history bound r =
    let e = r.counted in
    let grown = length-append history (stamped entry (length history + 1) ∷ []) in
    let slot : ring.next_sequence - 1 ≡ length history = omega arith in
    (
      e,
      record {
        room = length-set ring.entries _ _ ∙ r.room;
        counted = omega (arith, grown);
        totalled = omega (arith, grown);
        kept = λ k h l.
            rw (slot, e)
              (write_entry-kept (stamped entry (length history + 1)) ring history k r
                (omega (arith, grown)) (omega (arith, grown)));
        numbered = λ k x h.
            write_entry-numbered (stamped entry (length history + 1)) ring history k x r refl h;
      },
    )

visit_from-drop :
    (ring : Ring) (history : List Entry) (count k : ℕ)
    → Represents ring history
    → k + count ≡ length history
    → count ≤ capacity
    → visit_from ring.entries (k + 1) count ≡ drop k history
unfolding visit_from
visit_from-drop ring history zero k r e c = sym (drop_all history k (omega arith))
visit_from-drop ring history (suc count) k r e c =
    let (x, found) = get_elem?-some history k (omega arith) in
    let rest = visit_from-drop ring history count (k + 1) r (omega arith) (omega arith) in
    let back : k + 1 - 1 ≡ k = omega arith in
    let at : item ring.entries (k % capacity) ≡ some x =
      r.kept k (omega arith) (omega arith) ∙ found in
    rw (back, at, visit_from)
      (rw ((==_iff x.sequence (k + 1)).1 (r.numbered k x found), rest)
        (ground (arith, drop_step history k found)))

-- Reading a ring that stands for a history shows the history's last 512 entries, oldest first.
pub for_each-eq-drop :
    (ring : Ring) (history : List Entry)
    → Represents ring history
    → for_each ring ≡ drop (length history - capacity) history
unfolding for_each
for_each-eq-drop ring history r =
    let total : ring.next_sequence - 1 ≡ length history = omega (arith, r.counted) in
    rw total (
      visit_from-drop ring history (length history - (length history - capacity))
        (length history - capacity) r (omega arith) (omega arith))

-- The empty ring of the boot image stands for the empty history.
pub ring_new-Represents : Represents ring_new []
ring_new-Represents = record {
  room = length-replicate {A = Option Entry} capacity none;
  counted = refl;
  totalled = refl;
  kept = λ k h l. elim h [ ];
  numbered = λ k x h. cc;
}
