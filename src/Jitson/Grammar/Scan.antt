-- ===== src/Jitson/Grammar/Scan.antt =====
-- The loops of lib-sxe-jitson/sxe-jitson-source.c on texts that are known.
use libsxe.Base.{ℕ, ◌≡◌, refl, ap, ◌∙◌, Bool, true, false, List, [], ◌∷◌, ◌++◌, some, ◌==◌, arith}
use libsxe.Jitson.Source.{
  Source, behind, push_from, push_char, peek_from, isspace, span, get_while, get_nonspace,
}
use libsxe.Jitson.Strings.Escapes.{Moved, Moved-trans, behind-Moved, get_char-cons}
use libsxe.Jitson.Grammar.{Every, none_left, and_then, Stops, Blank}

-- The same source, with what is left named.
pub Moved_here : (s : Source) (cs : List ℕ) → s.rest ≡ cs → Moved s s cs
Moved_here s cs e = record { rest = e; allow_hex = refl; allow_consts = refl; allow_idents = refl }

span-stop :
    (test : ℕ → Bool) (s : Source) (rest : List ℕ)
    → Stops test rest
    → span test s rest ≡ ([], record s { rest = rest })
unfolding span peek_from
span-stop test s [] h = refl
span-stop test s (c ∷ cs) h = rw h refl

span-Every :
    (test : ℕ → Bool) (s : Source) (t rest : List ℕ)
    → Every test t
    → Stops test rest
    → (s' : Source) × (span test s (t ++ rest) ≡ (t, s')) × Moved s s' rest
unfolding span
span-Every test s _ rest none_left h =
    let s' : Source = record s { rest = rest } in
    (
      s',
      span-stop test s rest h,
      record { rest = refl; allow_hex = refl; allow_consts = refl; allow_idents = refl },
    )
span-Every test s _ rest (and_then {c} {cs} e es) h =
    let r = span-Every test (behind s c (cs ++ rest)) cs rest es h in
    (r.0, rw (e, r.1) refl, Moved-trans (behind-Moved s c (cs ++ rest)) r.2)

pub get_while-Every :
    (test : ℕ → Bool) (s : Source) (t rest : List ℕ)
    → Every test t
    → Stops test rest
    → s.rest ≡ t ++ rest
    → (s' : Source) × (get_while test s ≡ (t, s')) × Moved s s' rest
get_while-Every test s t rest es h e =
    let r = span-Every test s t rest es h in (r.0, ap (span test s) e ∙ r.1, r.2)

-- The byte behind white space.
pub get_nonspace-Blank :
    (s : Source) (a : List ℕ) (c : ℕ) (cs : List ℕ)
    → Blank a
    → isspace c ≡ false
    → s.rest ≡ a ++ c ∷ cs
    → (s' : Source) × (get_nonspace s ≡ (c, behind s' c cs)) × Moved s s' (c ∷ cs)
unfolding get_nonspace peek_from
get_nonspace-Blank s a c cs b h e =
    let r = get_while-Every isspace s a (c ∷ cs) b h e in
    (r.0, rw r.1 (get_char-cons r.0 c cs r.2.rest), r.2)

-- The byte that is read is pushed back.
pub push_char-behind :
    (s : Source) (c : ℕ) (cs : List ℕ)
    → s.rest ≡ c ∷ cs
    → (s' : Source) × (push_char (behind s c cs) c ≡ some s') × Moved s s' (c ∷ cs)
unfolding push_char push_from
push_char-behind s c cs e =
    let s' : Source = record s { rest = c ∷ cs } in
    let same : (c == c) ≡ true = ground arith in
    (
      s',
      rw same refl,
      record { rest = refl; allow_hex = refl; allow_consts = refl; allow_idents = refl },
    )
