-- ===== src/Memory/FactExamples.antt =====
-- The facts of a project, at a store that holds a name and a town.
use eden_os.Prelude.{
  String, false, [], ◌∷◌, ◌≡◌, refl, subst, arith, inl, inr, Bool-cases, str_eq, eq_iff, keep,
}
use eden_os.Prelude.Dict
use eden_os.Prelude.Text.{is_blank, contains}
use eden_os.Effect.{ok}
use eden_os.Memory.Records.{MemoryRecord}
use eden_os.Memory.ShortTerm.{Buffers}
use eden_os.Memory.Repository.InMemory
use eden_os.Memory.Facts.{fact_record, remember_fact, fact}
use eden_os.Memory.Facts.Found.{is_fact, AtMostOne}
use eden_os.Memory.Facts.Replaced.{Identified}
use eden_os.Memory.Facts.Remembered.{value_if_ok, fact-remember_fact}

abbrev held : String → String → String → MemoryRecord
held id key value = record (fact_record key value "home" 800000 0) { id = id }

abbrev store : Buffers
store = ("home", held "mem-1" "name" "Sam" ∷ held "mem-2" "town" "Perth" ∷ []) ∷ []

unique : (k : String) → AtMostOne (keep (is_fact k) (InMemory.read "home" store))
unfolding InMemory.read Dict.get contains
unique k = elim (Bool-cases (str_eq "name" k)) [
  | inl e ↦
      let same : "name" ≡ k = ground (arith, eq_iff "name" k, e) in
      subst (λ k. AtMostOne (keep (is_fact k) (InMemory.read "home" store))) same (omega arith)
  | inr e ↦ rw e (elim (Bool-cases (str_eq "town" k)) [
    | inl f ↦ rw f (omega arith)
    | inr f ↦ rw f (omega arith)
  ])
]

identified : Identified (InMemory.read "home" store)
unfolding InMemory.read Dict.get
identified = (
  ((λ e. refl), ((λ e. absurd (ground (arith, e))), tt)),
  (((λ e. absurd (ground (arith, e))), ((λ e. refl), tt)), tt),
)

-- A blank value is refused, and the name is lost.
fact-remember_fact_example :
    let (o, after) =
      remember_fact (λ s. []) (λ a. 0) 5 100 "mem-3" "name" " " "home" 800000 store in
    (fact (λ s. []) (λ a. 0) 5 "name" "home" after ≡ ok (value_if_ok " " o))
    × ((k : String)
        → str_eq k "name" ≡ false
        → fact (λ s. []) (λ a. 0) 5 k "home" after ≡ fact (λ s. []) (λ a. 0) 5 k "home" store)
unfolding is_blank InMemory.read Dict.get
fact-remember_fact_example =
    fact-remember_fact (λ s. []) (λ a. 0) 5 "home" refl 100 "mem-3" "name" " " 800000 store
      (omega arith) (omega arith) unique identified
