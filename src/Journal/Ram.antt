-- ===== src/Journal/Ram.antt =====
-- The device of the journal's own tests in libs/journal/src/lib.rs: sectors in memory.
use i3ml_os.Prelude.{
  ℕ, zero, suc, ◌+◌, ◌≡◌, ◌≢◌, refl, sym, ◌∙◌, ap, Bool, true, false, some, List, [], ◌∷◌, arith,
  ltb, ltb→lt, if◌then◌else◌, length, get_elem?, set, take, replicate, length-set,
  get_elem?-set_self, get_elem?-set_ne, Bool-cases, inl, inr,
}
use i3ml_os.Journal.Append.{IsWritable}
use i3ml_os.Journal.{Sectors, sector_bytes}
use i3ml_os.Journal.Chain.{IsReadable}

pub record Ram : Type 0 where
  pub sectors : List (List ℕ)
  pub flushed : ℕ

-- `Ram::new`.
abbrev pub ram_new : ℕ → Ram
ram_new count = record { sectors = replicate count (replicate sector_bytes 0); flushed = 0 }

unfoldable pub write_ram : ℕ → List ℕ → Ram → Bool × Ram
write_ram sector bytes d =
    if ltb sector (length d.sectors)
    then (true, record d { sectors = set d.sectors sector (take sector_bytes bytes) })
    else (false, d)

abbrev pub ram : Sectors Ram
ram = record {
  sector_count = λ d. length d.sectors;
  read_sector = λ sector d. (get_elem? d.sectors sector, d);
  write_sector = write_ram;
  flush_device = λ d. (true, record d { flushed = d.flushed + 1 });
}

pub ram-IsReadable : IsReadable ram
ram-IsReadable = record { keeps = λ sector d i. refl; keeps_size = λ sector d. refl }

true_ne_false : true ≢ false
true_ne_false e = cc

take-length : (n : ℕ) (xs : List ℕ) → length xs ≡ n → take n xs ≡ xs
take-length zero [] h = refl
take-length zero (x ∷ xs) h = absurd (omega arith)
take-length (suc n) [] h = refl
take-length (suc n) (x ∷ xs) h = ap (λ (t : List ℕ). x ∷ t) (take-length n xs (omega arith))

pub ram-IsWritable : IsWritable ram
unfolding write_ram
ram-IsWritable = record {
  lands = λ sector bytes d sized done. landed sector bytes d sized done;
  spares = λ sector other bytes d apart. spared sector other bytes d apart;
  spares_size = λ sector bytes d. size sector bytes d;
}
  where
    landed :
        (sector : ℕ) (bytes : List ℕ) (d : Ram)
        → length bytes ≡ 512
        → (write_ram sector bytes d).0 ≡ true
        → get_elem? (write_ram sector bytes d).1.sectors sector ≡ some bytes
    landed sector bytes d sized done = elim (Bool-cases (ltb sector (length d.sectors))) [
      | inl room ↦
          rw (room, write_ram, take-length 512 bytes sized)
            (get_elem?-set_self d.sectors sector bytes (ltb→lt sector (length d.sectors) room))
      | inr beyond ↦
          let refused : (write_ram sector bytes d).0 ≡ false = rw (beyond, write_ram) refl in
          absurd (true_ne_false (sym done ∙ refused))
    ]

    spared :
        (sector other : ℕ) (bytes : List ℕ) (d : Ram)
        → sector ≢ other
        → get_elem? (write_ram sector bytes d).1.sectors other ≡ get_elem? d.sectors other
    spared sector other bytes d apart = elim (Bool-cases (ltb sector (length d.sectors))) [
      | inl room ↦
          rw (room, write_ram) (get_elem?-set_ne d.sectors sector other (take 512 bytes) apart)
      | inr beyond ↦ rw (beyond, write_ram) refl
    ]

    size :
        (sector : ℕ) (bytes : List ℕ) (d : Ram)
        → length (write_ram sector bytes d).1.sectors ≡ length d.sectors
    size sector bytes d = elim (Bool-cases (ltb sector (length d.sectors))) [
      | inl room ↦ rw (room, write_ram) (length-set d.sectors sector (take 512 bytes))
      | inr beyond ↦ rw (beyond, write_ram) refl
    ]
