-- ===== src/Sijil/Tests.antt =====
-- Runs of the journal in memory, and its theorems at concrete inputs.
use i3ml_os.Prelude.{◌≡◌, refl, some, [], ◌∷◌, arith}
use i3ml_os.Text.{Text, literal, as_bytes}
use i3ml_os.Text
use i3ml_os.Text.Valid.{IsText}
use i3ml_os.Sijil.{granted, Entry, ring_new, write_entry, for_each}
use i3ml_os.Sijil.Label.{Label, as_str, exact, exact_reads_back}
use i3ml_os.Sijil.Label
use i3ml_os.Sijil.History.{
  Represents, stamped, ring_new-Represents, write_entry-Represents, for_each-eq-drop,
}

abbrev first_entry : Entry
first_entry = record {
  sequence = 0;
  at = 7;
  agent = 1;
  event = granted;
  detail = 0;
  label = Label.new (literal "fs:read");
}

write_entry-Represents_example :
    ((write_entry first_entry ring_new).0 ≡ 1)
    × Represents (write_entry first_entry ring_new).1 (stamped first_entry 1 ∷ [])
write_entry-Represents_example =
    write_entry-Represents first_entry ring_new [] (omega arith) ring_new-Represents

for_each-eq-drop_example :
    for_each (write_entry first_entry ring_new).1 ≡ stamped first_entry 1 ∷ []
for_each-eq-drop_example =
    for_each-eq-drop (write_entry first_entry ring_new).1 (stamped first_entry 1 ∷ [])
      write_entry-Represents_example.1

go_IsText : IsText (literal "go")
unfolding Text.utf8_from Text.lead
go_IsText = ((refl, refl, refl), ((refl, refl, refl), tt))

go_fits : exact (literal "go") ≡ some (Label.new (literal "go"))
unfolding exact Label.new
go_fits = refl
