-- ===== src/Execution/JournalExamples.antt =====
-- The properties of the journals at concrete inputs.
use eden_os.Prelude.{ℕ, none, some, List, [], ◌∷◌, ◌≡◌, refl, str_eq, if◌then◌else◌, false}
use eden_os.Prelude.Text.{is_blank}
use eden_os.Execution.Journal.{Json}

abbrev entries : List ℕ
entries = 1 ∷ 2 ∷ 3 ∷ 4 ∷ 5 ∷ []

-- One kind of entry, which is written as `{}`.
abbrev json : Json (Unit {0})
json = record { dumps = λ e. "{}"; loads = λ s. if str_eq s "{}" then some tt else none }

some_text : is_blank (json.dumps tt) ≡ false
unfolding is_blank
some_text = refl
