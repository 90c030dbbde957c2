-- ===== src/Jitson/Access/Texts.antt =====
-- Access to the members of an object that lib-sxe-jitson/sxe-jitson-stack.c has parsed.
use libsxe.Base.{ℕ, ◌≡◌, ap, sym, ◌∙◌, Bool, true, List, [], ◌++◌, none, append-nil}
use libsxe.Jitson.{Stack}
use libsxe.Jitson.Source.{Source}
use libsxe.Jitson.Text.{loaded}
use libsxe.Jitson.Load.{Environment, parse_json}
use libsxe.Jitson.Expand.{IsStack}
use libsxe.Jitson.Value.{object, Members, encode}
use libsxe.Jitson.Grammar.{Blank, Json}
use libsxe.Jitson.Grammar.Parse.{parse_json-Json}
use libsxe.Jitson.Access.{get_member}
use libsxe.Jitson.Access.Buckets.{Plain, last_value}
use libsxe.Jitson.Access.Members.{IsObject, Obtained, get_member-IsObject}

module _ (env : Environment) (hex : Bool) (total : (n : ℕ) → env.can_allocate n ≡ true)
    (sum : List ℕ → ℕ) where
  -- When the text of an object has been parsed onto an empty stack, an access to a member returns the offset at
  -- which the tokens of the last value with the name start, and ENOKEY where there is none, when all memory is
  -- there that is asked for, no name of the object holds a NUL, strtoul and strtod read just the text
  -- of the numbers, whatever stands behind them, and the characters of the strings and names in
  -- the text are of one byte, or stand at places where the parser makes just the room that they want, as `fits`
  -- in `Json` says.
  pub get_member-parse_json :
      (ms : Members) (a t b : List ℕ) (st st' : Stack) (s : Source) (consts idents : Bool)
      (name : List ℕ)
      → IsStack st
      → st.tokens ≡ []
      → Blank a
      → Json env hex (object ms) t
      → Blank b
      → Plain ms
      → parse_json env st (a ++ (t ++ b)) hex consts idents ≡ loaded st' s
      → Obtained sum ms []
          (last_value ms name none)
          (get_member env.can_allocate sum (record { tokens = st'.tokens; buckets = none }) name)
  get_member-parse_json ms a t b st st' s consts idents name v e ba j bb plain r =
      let p = parse_json-Json env hex total (object ms) a t b st consts idents v ba j bb in
      let both : loaded p.stack p.source ≡ loaded st' s = sym p.is_loaded ∙ r in
      let same : p.stack ≡ st' = cc in
      let tokens : st'.tokens ≡ encode (object ms) ++ [] =
        ap (λ (x : Stack). x.tokens) (sym same)
        ∙ p.tokens
        ∙ ap (λ l. l ++ encode (object ms)) e
        ∙ sym (append-nil (encode (object ms))) in
      let is_object : IsObject sum ms [] (record { tokens = st'.tokens; buckets = none }) = record {
        tokens = tokens;
        made = λ buckets q. absurd cc;
      } in
      get_member-IsObject env.can_allocate total sum ms []
        (record { tokens = st'.tokens; buckets = none }) is_object name plain
