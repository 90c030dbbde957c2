-- ===== src/Jitson/Grammar/Cut.antt =====
-- Arrays of lib-sxe-jitson/sxe-jitson-stack.c that are cut off behind their opening bracket.
use libsxe.Base.{
  ℕ, suc, ◌≡◌, refl, ap, sym, ◌∙◌, true, List, [], ◌∷◌, ◌++◌, none, arith, append-nil,
}
use libsxe.Jitson.{Stack}
use libsxe.Jitson.Source.{
  Source, behind, get_from, get_char, push_char, isspace, get_nonspace, peek_from,
}
use libsxe.Jitson.Text.{aborted}
use libsxe.Jitson.Load.{Environment, class_of, load_class, load_array, pushed_back, load_json}
use libsxe.Jitson.Consume.{Read, a_byte, span-Read, none_pushed}
use libsxe.Jitson.Expand.{IsStack}
use libsxe.Jitson.Grammar.{Blank}
use libsxe.Jitson.Grammar.Scan.{get_while-Every}
use libsxe.Jitson.Grammar.Scalars.{load_json-first}

get_char-end : (s : Source) → s.rest ≡ [] → get_char s ≡ (0, s)
unfolding get_char get_from
get_char-end s e = rw e refl

-- Behind white space there is nothing to push back.
nothing_back :
    (s : Source) (b : List ℕ)
    → Read s.before
    → Blank b
    → s.rest ≡ b
    → (s' : Source) × (get_nonspace s ≡ (0, s')) × (push_char s' 0 ≡ none)
unfolding get_nonspace push_char peek_from
nothing_back s b r w e =
    let x = get_while-Every isspace s b [] w refl (e ∙ sym (append-nil b)) in
    let kept : Read x.0.before =
      rw (sym (ap (λ (y : List ℕ × Source). y.1) x.1)) (span-Read s s.rest r) in
    (x.0, rw x.1 (get_char-end x.0 x.2.rest), none_pushed x.0 x.0.before kept)

-- Loading from a source that ends behind white space, the bracket that opens an array and white space fails an
-- assertion, when all memory is there that is asked for.
pub load_json-aborted :
    (env : Environment) (f : ℕ) (st : Stack) (s : Source) (a b : List ℕ)
    → ((n : ℕ) → env.can_allocate n ≡ true)
    → IsStack st
    → Blank a
    → Blank b
    → s.rest ≡ a ++ 91 ∷ b
    → load_json env (suc f) st s ≡ aborted
unfolding load_class class_of load_array pushed_back
load_json-aborted env f st s a b total v w z e =
    let x = load_json-first env total f st s a b 91 v w refl refl e in
    let n = nothing_back (behind x.1 91 b) b (a_byte (omega arith)) z refl in
    x.2 ∙ rw (n.1, n.2) refl
