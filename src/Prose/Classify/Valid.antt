-- ===== src/Prose/Classify/Valid.antt =====
-- The classes that the classification gives by itself.
use libhw.Base.{
  Bool, Bool-cases, List, Option, Text, [], false, if◌then◌else◌, inl, inr, leb, map, member, none,
  not, refl, some, text_eq, true, upper, ◌&&◌, ◌∷◌, ◌≡◌,
}
use libhw.Base.Regex.{Regex, found_in}
use libhw.Prose.Classify.{
  Decision, Vocabulary, auto_classify, by_context, by_family, by_list, by_phrase, by_section,
  by_vocabulary, first_of, front_matter_reason, is_count_kind, is_list_kind, valid, when,
}
use libhw.Prose.Patterns.{Kind, comma_set, family, instr_ref, phrase, range, through}
use libhw.Prose.Scan.{ProseCandidate}
use libhw.Sources.Lock.{is_empty}

-- A decision, where there is one, has a class that a review could have.
abbrev IsValid : Option Decision → Type 0
IsValid none = Unit
IsValid (some d) = member d.0 valid ≡ true

when-IsValid : (test : Bool) (d : Decision) → member d.0 valid ≡ true → IsValid (when test d)
unfolding when
when-IsValid true d h = h
when-IsValid false d h = tt

first_of-IsValid : (x y : Option Decision) → IsValid x → IsValid y → IsValid (first_of x y)
unfolding first_of
first_of-IsValid (some d) y h k = h
first_of-IsValid none y h k = k

by_phrase-IsValid : (blob : Text) (ps : List (Regex × Text)) → IsValid (by_phrase blob ps)
unfolding by_phrase member text_eq
by_phrase-IsValid blob [] = tt
by_phrase-IsValid blob ((rx, covers) ∷ ps) = elim (Bool-cases (found_in rx blob)) [
  | inl h ↦ rw h refl
  | inr h ↦ rw h (by_phrase-IsValid blob ps)
]

by_vocabulary-IsValid : (v : Vocabulary) (names : List Text) → IsValid (by_vocabulary v names)
unfolding by_vocabulary member text_eq
by_vocabulary-IsValid v names = search (first_of-IsValid, when-IsValid)

by_family-IsValid :
    (v : Vocabulary) (kind : Kind) (names : List Text) → IsValid (by_family v kind names)
unfolding by_family member text_eq
by_family-IsValid v range names = tt
by_family-IsValid v through names = tt
by_family-IsValid v Kind.count names = tt
by_family-IsValid v phrase names = tt
by_family-IsValid v family names = search when-IsValid
by_family-IsValid v instr_ref names = tt
by_family-IsValid v comma_set names = tt

by_list-IsValid :
    (v : Vocabulary) (c : ProseCandidate) (names : List Text) → IsValid (by_list v c names)
unfolding by_list member text_eq
by_list-IsValid v c names = elim (Bool-cases (is_list_kind c.kind && not (is_empty names))) [
  | inl h ↦ rw h (search (first_of-IsValid, when-IsValid))
  | inr h ↦ rw h tt
]

by_context-IsValid : (v : Vocabulary) (c : ProseCandidate) → IsValid (by_context v c)
unfolding by_context member text_eq
by_context-IsValid v c = search (first_of-IsValid, when-IsValid, by_phrase-IsValid)

by_section-IsValid :
    (v : Vocabulary) (c : ProseCandidate) (names : List Text) → IsValid (by_section v c names)
unfolding by_section member text_eq
by_section-IsValid v c names = search (first_of-IsValid, when-IsValid)

last-IsValid :
    (v : Vocabulary) (c : ProseCandidate) (names : List Text) (test : Bool)
    → IsValid (if test then by_context v c else by_section v c names)
last-IsValid v c names true = by_context-IsValid v c
last-IsValid v c names false = by_section-IsValid v c names

auto_classify-IsValid : (v : Vocabulary) (c : ProseCandidate) → IsValid (auto_classify v c)
unfolding auto_classify
auto_classify-IsValid v c =
    let names = map upper c.names in
    elim (Bool-cases (leb c.page v.front_matter)) [
      | inl h ↦ rw h (unfold front_matter_reason member text_eq in refl)
      | inr h ↦ rw h (
          first_of-IsValid _ _ (by_vocabulary-IsValid v names) (
            first_of-IsValid _ _ (by_family-IsValid v c.kind names) (
              first_of-IsValid _ _ (by_list-IsValid v c names)
                (last-IsValid v c names (is_empty names && is_count_kind c.kind)))))
    ]

-- A class that the classification gives by itself is one of those that a review may give.
pub auto_classify-member :
    (v : Vocabulary) (c : ProseCandidate) (d : Decision)
    → auto_classify v c ≡ some d
    → member d.0 valid ≡ true
auto_classify-member v c d h = rw h at (auto_classify-IsValid v c)
