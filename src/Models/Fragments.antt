-- ===== src/Models/Fragments.antt =====
-- The pieces of a Tool call that a stream brings, against a description of the whole stream.
use milky_frog_lite.Prelude.{
  List, Option, ℕ, String, none, map, ◌≡◌, filter, ◌==◌, ap, ◌∙◌, [], fstring, if◌then◌else◌, arith,
  refl, sym, Bool-cases, inl, inr, true, false,
}
use Prim.Native.String.{◌++◌ as text_append}
use text.Mathlib.TextLemmas.{
  nil-append as text-nil-append, append-nil as text-append-nil, append_assoc as text-append_assoc,
}
use milky_frog_lite.Models.{
  CallDelta, ToolFragment, new_fragment, replaced, extended, merge, merge_all, ℕ, String, Option,
  List, none, ◌∷◌, map, some, fstring,
}

-- The pieces of one call.
abbrev pub pieces : ℕ → List CallDelta → List CallDelta
pieces index ds = filter (λ d. index == d.index) ds

-- The last text that is given, if any.
abbrev pub last_given : String → List String → String
last_given old [] = old
last_given old (s ∷ ss) = last_given (replaced old s) ss

-- The call that its pieces make: the last id and the last name, and the arguments in one text.
abbrev pub assembled : List CallDelta → ToolFragment
assembled ds = record {
  id = last_given "" (map (λ (d : CallDelta). d.id) ds);
  name = last_given "" (map (λ (d : CallDelta). d.name) ds);
  arguments = fstring (map (λ (d : CallDelta). d.arguments) ds);
}

abbrev pub find_fragment : ℕ → List (ℕ × ToolFragment) → Option ToolFragment
find_fragment index [] = none
find_fragment index ((i, f) ∷ fs) = if index == i then some f else find_fragment index fs

-- The call that a fragment becomes by more pieces.
abbrev continued : ToolFragment → List CallDelta → ToolFragment
continued f ds = record {
  id = last_given f.id (map (λ (d : CallDelta). d.id) ds);
  name = last_given f.name (map (λ (d : CallDelta). d.name) ds);
  arguments = fstring (f.arguments ∷ map (λ (d : CallDelta). d.arguments) ds);
}

-- What is known of a call, once more of its pieces are there.
abbrev pub later : Option ToolFragment → List CallDelta → Option ToolFragment
later none [] = none
later none (d ∷ ds) = some (assembled (d ∷ ds))
later (some f) ds = some (continued f ds)

extended-continued :
    (f : ToolFragment) (d : CallDelta) (ds : List CallDelta)
    → continued (extended f d) ds ≡ continued f (d ∷ ds)
unfolding extended
extended-continued f d ds =
    ap
      (λ a. record {
        id = last_given f.id (map (λ (x : CallDelta). x.id) (d ∷ ds));
        name = last_given f.name (map (λ (x : CallDelta). x.name) (d ∷ ds));
        arguments = a;
      })
      (ap
          (λ t.
            text_append (text_append f.arguments t)
              (fstring (map (λ (x : CallDelta). x.arguments) ds)))
          (text-append-nil d.arguments)
        ∙ text-append_assoc f.arguments d.arguments _)

begun-assembled :
    (d : CallDelta) (ds : List CallDelta)
    → continued (extended new_fragment d) ds ≡ assembled (d ∷ ds)
begun-assembled d ds =
    extended-continued new_fragment d ds
    ∙ ap
        (λ a. record {
          id = last_given "" (map (λ (x : CallDelta). x.id) (d ∷ ds));
          name = last_given "" (map (λ (x : CallDelta). x.name) (d ∷ ds));
          arguments = a;
        })
        (text-nil-append (fstring (map (λ (x : CallDelta). x.arguments) (d ∷ ds))))

abbrev extended_or : Option ToolFragment → CallDelta → ToolFragment
extended_or none d = extended new_fragment d
extended_or (some f) d = extended f d

find_fragment-merge :
    (index : ℕ) (d : CallDelta) (fs : List (ℕ × ToolFragment))
    → find_fragment index (merge d fs) ≡ (
        if index == d.index
        then some (extended_or (find_fragment index fs) d)
        else find_fragment index fs)
unfolding merge
find_fragment-merge index d [] = refl
find_fragment-merge index d ((i, f) ∷ fs) = ground (arith, find_fragment-merge index d fs)

continued-nil : (f : ToolFragment) → continued f [] ≡ f
continued-nil f =
    ap (λ a. record { id = f.id; name = f.name; arguments = a }) (text-append-nil f.arguments)

later-merge :
    (o : Option ToolFragment) (d : CallDelta) (ds : List CallDelta)
    → later (some (extended_or o d)) ds ≡ later o (d ∷ ds)
later-merge none d ds = ap (λ f. some f) (begun-assembled d ds)
later-merge (some f) d ds = ap (λ g. some g) (extended-continued f d ds)

later-nil : (o : Option ToolFragment) → later o [] ≡ o
later-nil none = refl
later-nil (some f) = ap (λ g. some g) (continued-nil f)

module _ (index : ℕ) (d : CallDelta) (ds : List CallDelta) (fs : List (ℕ × ToolFragment)) where
  merge_same :
      (index == d.index) ≡ true
      → find_fragment index (merge d fs) ≡ some (extended_or (find_fragment index fs) d)
  merge_same e = find_fragment-merge index d fs ∙ rw e refl

  merge_other :
      (index == d.index) ≡ false → find_fragment index (merge d fs) ≡ find_fragment index fs
  merge_other e = find_fragment-merge index d fs ∙ rw e refl

  pieces_same : (index == d.index) ≡ true → pieces index (d ∷ ds) ≡ d ∷ pieces index ds
  pieces_same e = rw e refl

  pieces_other : (index == d.index) ≡ false → pieces index (d ∷ ds) ≡ pieces index ds
  pieces_other e = rw e refl

find_fragment-merge_all :
    (index : ℕ) (ds : List CallDelta) (fs : List (ℕ × ToolFragment))
    → find_fragment index (merge_all ds fs) ≡ later (find_fragment index fs) (pieces index ds)
unfolding merge_all
find_fragment-merge_all index [] fs = sym (later-nil (find_fragment index fs))
find_fragment-merge_all index (d ∷ ds) fs = elim (Bool-cases (index == d.index)) [
  | inl e ↦
      find_fragment-merge_all index ds (merge d fs)
      ∙ ap (λ o. later o (pieces index ds)) (merge_same index d ds fs e)
      ∙ later-merge (find_fragment index fs) d (pieces index ds)
      ∙ ap (later (find_fragment index fs)) (sym (pieces_same index d ds fs e))
  | inr e ↦
      find_fragment-merge_all index ds (merge d fs)
      ∙ ap (λ o. later o (pieces index ds)) (merge_other index d ds fs e)
      ∙ ap (later (find_fragment index fs)) (sym (pieces_other index d ds fs e))
]

-- The fragment that the stream leaves for an index is the call that the pieces of that index make:
-- the last id and the last name that were given, and all arguments in one text, in their order;
-- and there is none without a piece.
pub merge_all-assembled :
    (index : ℕ) (ds : List CallDelta)
    → find_fragment index (merge_all ds []) ≡ later none (pieces index ds)
merge_all-assembled index ds = find_fragment-merge_all index ds []
