-- ===== src/Jitson/Grammar/Tokens.antt =====
-- Steps of lib-sxe-jitson/sxe-jitson-stack.c that put the tokens of collections together.
use libsxe.Base.{
  ℕ, suc, ◌+◌, ◌≡◌, ap, sym, ◌∙◌, true, List, [], ◌∷◌, ◌++◌, arith, length, append-nil,
  append_assoc,
}
use libsxe.Jitson.{Token, Stack, set_token}
use libsxe.Jitson.Source.{Source}
use libsxe.Jitson.Text.{Outcome}
use libsxe.Jitson.Load.{
  Environment, Class, or_discard, load_array, elements, members, member_loaded, name_loaded,
}
use libsxe.Jitson.Strings.Escapes.{Moved, Moved-trans}
use libsxe.Jitson.Strings.Loop.{Spelled}
use libsxe.Jitson.Strings.Load.{load_string-Spelled}
use libsxe.Jitson.Value.{string_tokens}
use libsxe.Jitson.Grammar.{Blank}
use libsxe.Jitson.Grammar.Heads.{HeadAt, more-HeadAt}
use libsxe.Jitson.Grammar.Scalars.{Parsed}
use libsxe.Jitson.Grammar.Leaves.{Starts, starts}
use libsxe.Jitson.Grammar.Steps.{array_opened, name_next}

pub Parsed-at :
    {base toks toks' : List Token} {s : Source} {rest : List ℕ} {o : Outcome}
    → toks ≡ toks'
    → Parsed base toks s rest o
    → Parsed base toks' s rest o
Parsed-at {base} e p = record {
  stack = p.stack;
  source = p.source;
  is_loaded = p.is_loaded;
  tokens = p.tokens ∙ ap (λ l. base ++ l) e;
  is_stack = p.is_stack;
  moved = p.moved;
}

pub array_opened_at :
    (value : Stack → Source → Outcome) (f : ℕ) (base : List Token) (st : Stack) (s : Source)
    (a u : List ℕ) (k : Class)
    → Blank a
    → Starts k u
    → s.rest ≡ a ++ u
    → (s' : Source) × (load_array value f (length base) st s
        ≡ elements value f (length base) (set_token st (length base) (Token.array 0 0)) s')
      × Moved s s' u
array_opened_at value f base st s a _ k b (starts {c} {cs} q n z w) e =
    array_opened value f base st s a cs c b n w e

pub zero_plus : (n : ℕ) → 0 + n ≡ n
zero_plus n = omega arith

pub elements_packed :
    (n m : ℕ) (l v w : List Token)
    → Token.array (n + 1 + m) (suc (length ((l ++ v) ++ w))) ∷ ((l ++ v) ++ w)
      ≡ Token.array (n + suc m) (suc (length (l ++ (v ++ w)))) ∷ (l ++ (v ++ w))
elements_packed n m l v w =
    let count : n + 1 + m ≡ n + suc m = omega arith in
    ap (λ k. Token.array k (suc (length ((l ++ v) ++ w))) ∷ ((l ++ v) ++ w)) count
    ∙ ap (λ x. Token.array (n + suc m) (suc (length x)) ∷ x) (append_assoc l v w)

pub member_last_packed :
    (n : ℕ) (l k v : List Token)
    → Token.object (n + 1) (suc (length ((l ++ k) ++ v))) ∷ ((l ++ k) ++ v)
      ≡ Token.object (n + 1) (suc (length (l ++ (k ++ (v ++ []))))) ∷ (l ++ (k ++ (v ++ [])))
member_last_packed n l k v =
    ap (λ x. Token.object (n + 1) (suc (length x)) ∷ x)
      (append_assoc l k v ∙ ap (λ x. l ++ (k ++ x)) (sym (append-nil v)))

pub members_packed :
    (n m : ℕ) (l k v w : List Token)
    → Token.object (n + 1 + m) (suc (length (((l ++ k) ++ v) ++ w))) ∷ (((l ++ k) ++ v) ++ w)
      ≡ Token.object (n + suc m) (suc (length (l ++ (k ++ (v ++ w))))) ∷ (l ++ (k ++ (v ++ w)))
members_packed n m l k v w =
    let count : n + 1 + m ≡ n + suc m = omega arith in
    let joined : ((l ++ k) ++ v) ++ w ≡ l ++ (k ++ (v ++ w)) =
      append_assoc (l ++ k) v w ∙ append_assoc l k (v ++ w) in
    ap (λ i. Token.object i (suc (length (((l ++ k) ++ v) ++ w))) ∷ (((l ++ k) ++ v) ++ w)) count
    ∙ ap (λ x. Token.object (n + suc m) (suc (length x)) ∷ x) joined

-- The name of a member and the colon behind it.
pub member_named :
    (env : Environment)
    → ((n : ℕ) → env.can_allocate n ≡ true)
    → (value : Stack → Source → Outcome) (f k : ℕ) (base : List Token) (n : ℕ) (l : List Token)
      (st : Stack) (s : Source) (key w a u : List ℕ)
    → HeadAt base (Token.object n 0) l st
    → Spelled 0 w key
    → Blank a
    → s.rest ≡ w ++ 34 ∷ (a ++ 58 ∷ u)
    → (st' : Stack) × (s' : Source) × (members env value (suc k) (length base) 34 st s
        ≡ or_discard
            (member_loaded (members env value k (length base)) (length base))
            (length base)
            (value st' s'))
      × HeadAt base (Token.object n 0) (l ++ string_tokens true key) st'
      × Moved s s' u
unfolding members or_discard string_tokens
member_named env total value f k base n l st s key w a u p sp b e =
    let next = members env value k (length base) in
    let y =
      load_string-Spelled env.can_allocate st s true w key (a ++ 58 ∷ u) total p.is_stack sp e in
    let o = name_next value f base next y.0 y.1 a u b y.5.rest in
    (
      y.0,
      o.0,
      ap (or_discard (name_loaded value next (length base)) (length base)) y.2 ∙ o.1,
      more-HeadAt p (string_tokens true key) y.3 y.4,
      Moved-trans y.5 o.2,
    )
