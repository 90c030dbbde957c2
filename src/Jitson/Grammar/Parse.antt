-- ===== src/Jitson/Grammar/Parse.antt =====
-- The parser of lib-sxe-jitson/sxe-jitson-stack.c on the texts of values.
use libsxe.Base.{
  ℕ, zero, suc, ◌+◌, ◌<◌, ◌≡◌, refl, ap, sym, ◌∙◌, Bool, true, false, List, [], ◌∷◌, ◌++◌, arith,
  length, length-append, if◌then◌else◌, append-nil, append_assoc, bytes_eq,
}
use libsxe.Jitson.{Token, Stack, set_token, add_one, count_one}
use libsxe.Jitson.Source.{
  Source, behind, identifier_char, peek_from, source_from_buffer, source_from_string,
}
use libsxe.Jitson.Load.{
  Environment, class_of, or_discard, load_class, load_json, named, elements, element_loaded,
  members, member_loaded, parse_json,
}
use libsxe.Jitson.Consume.{left}
use libsxe.Jitson.Expand.{IsStack}
use libsxe.Jitson.Strings.Escapes.{Moved-trans, behind-Moved}
use libsxe.Jitson.Value.{
  Value, Elements, Members, count, count_members, string_tokens, encode, encode_elements,
  encode_members,
}
use libsxe.Jitson.Grammar.{
  none_left, and_then, Stops, Blank, Json, null_text, true_text, false_text, uint_text, double_text,
  string_text, array_empty, array_text, object_empty, object_text, ElementsText, last_element,
  next_element, MembersText, last_member, next_member,
}
use libsxe.Jitson.Grammar.Heads.{HeadAt, set-HeadAt, more-HeadAt, add_one-HeadAt}
use libsxe.Jitson.Grammar.Scalars.{Parsed, Parsed-from, load_json-first, uint-Parsed, double-Parsed}
use libsxe.Jitson.Grammar.Leaves.{starts, Numeral-Starts, word_value, number_value, string_value}
use libsxe.Jitson.Grammar.Steps.{
  array_empty-Parsed, element_last-Parsed, element_next, member_last-Parsed, member_next,
  object_empty-Parsed, object_opened,
}
use libsxe.Jitson.Grammar.Texts.{
  Blank-Stops, ElementsText-Starts, shorter, unpacked, unpacked_length, one_packed, two_packed,
  fewer, member_packed, comma_packed, named_fewer,
}
use libsxe.Jitson.Grammar.Tokens.{
  Parsed-at, array_opened_at, zero_plus, elements_packed, member_last_packed, members_packed,
  member_named,
}

module _ (env : Environment) (hex : Bool) (total : (n : ℕ) → env.can_allocate n ≡ true) where
  mutual
    unfolding load_class class_of elements or_discard members named encode encode_elements
        encode_members count count_members string_tokens count_one bytes_eq

    value-Parsed :
        {v : Value} {t : List ℕ}
        → Json env hex v t
        → (fuel : ℕ) (st : Stack) (s : Source) (a rest : List ℕ) → IsStack st
        → Blank a
        → Stops identifier_char rest
        → s.allow_hex ≡ hex
        → s.rest ≡ a ++ (t ++ rest)
        → left s < fuel
        → Parsed st.tokens (encode v) s rest (load_json env fuel st s)
    value-Parsed j zero st s a rest v b h x e l = absurd (omega (arith, l))
    value-Parsed null_text (suc f) st s a rest v b h x e l =
        word_value env total Token.null 110 (117 ∷ 108 ∷ 108 ∷ []) (starts refl refl refl refl)
          (and_then refl (and_then refl (and_then refl (and_then refl none_left))))
          (λ i st' s'. refl) f st s a rest v b h e
    value-Parsed true_text (suc f) st s a rest v b h x e l =
        word_value env total (Token.boolean true) 116 (114 ∷ 117 ∷ 101 ∷ [])
          (starts refl refl refl refl)
          (and_then refl (and_then refl (and_then refl (and_then refl none_left))))
          (λ i st' s'. refl) f st s a rest v b h e
    value-Parsed false_text (suc f) st s a rest v b h x e l =
        word_value env total (Token.boolean false) 102 (97 ∷ 108 ∷ 115 ∷ 101 ∷ [])
          (starts refl refl refl refl)
          (and_then refl (and_then refl (and_then refl (and_then refl (and_then refl none_left)))))
          (λ i st' s'. refl) f st s a rest v b h e
    value-Parsed (uint_text {n} {t} num q) (suc f) st s a rest v b h x e l =
        number_value env total (Token.uint n) f st s a (t ++ rest) rest (Numeral-Starts rest num) v
          b e
          (λ st' s' p m.
            uint-Parsed env total st.tokens st' p n t rest s' num
              (ap (λ (y : Bool). env.strtoul (t ++ rest) (if y then 0 else 10)) (m.allow_hex ∙ x)
                ∙ q rest h)
              h m.rest)
    value-Parsed (double_text {d} {t} num q) (suc f) st s a rest v b h x e l =
        number_value env total (Token.number d) f st s a (t ++ rest) rest (Numeral-Starts rest num)
          v b e
          (λ st' s' p m.
            double-Parsed env total st.tokens st' p d t rest s' num (q rest h) h m.rest)
    value-Parsed (string_text {w} {t} sp) (suc f) st s a rest v b h x e l =
        string_value env total w t f st s a rest sp v b
          (e ∙ ap (λ u. a ++ 34 ∷ u) (append_assoc t (34 ∷ []) rest))
    value-Parsed (array_empty {a = i} c) (suc f) st s a rest v b h x e l =
        let cs = (i ++ 93 ∷ []) ++ rest in
        let y = load_json-first env total f st s a cs 91 v b refl refl e in
        let s1 = behind y.1 91 cs in
        Parsed-from y.2 (Moved-trans y.4 (behind-Moved y.1 91 cs)) (
          array_empty-Parsed (load_json env f) f st.tokens y.0 s1 i rest y.3 c
            (unpacked i (93 ∷ []) rest))
    value-Parsed (array_text {es} {a = i} {t} c xs) (suc f) st s a rest v b h x e l =
        let cs = (i ++ t) ++ rest in
        let y = load_json-first env total f st s a cs 91 v b refl refl e in
        let s1 = behind y.1 91 cs in
        let k = ElementsText-Starts rest xs in
        let o =
          array_opened_at (load_json env f) f st.tokens y.0 s1 i (t ++ rest) k.0 c k.1
            (unpacked i t rest) in
        let m = Moved-trans (Moved-trans y.4 (behind-Moved y.1 91 cs)) o.2 in
        let few = shorter s o.0 a cs (t ++ rest) 91 f e l o.2.rest (unpacked_length i t rest) in
        Parsed-from (y.2 ∙ o.1) m (
          Parsed-at
            (ap (λ n. Token.array n (suc (length (encode_elements es))) ∷ encode_elements es)
              (zero_plus (count es)))
            (elements-Parsed xs f f 0 (set_token y.0 (length st.tokens) (Token.array 0 0)) o.0 []
              rest st.tokens [] (set-HeadAt y.3 (Token.array 0 0)) none_left (m.allow_hex ∙ x)
              o.2.rest few few))
    value-Parsed (object_empty {a = i} c) (suc f) st s a rest v b h x e l =
        let cs = (i ++ 125 ∷ []) ++ rest in
        let y = load_json-first env total f st s a cs 123 v b refl refl e in
        let s1 = behind y.1 123 cs in
        Parsed-from y.2 (Moved-trans y.4 (behind-Moved y.1 123 cs)) (
          object_empty-Parsed env (load_json env f) f st.tokens y.0 s1 i rest y.3 c
            (unpacked i (125 ∷ []) rest))
    value-Parsed (object_text {ms} {a = i} {t} c xs) (suc f) st s a rest v b h x e l =
        let cs = (i ++ 34 ∷ t) ++ rest in
        let y = load_json-first env total f st s a cs 123 v b refl refl e in
        let s1 = behind y.1 123 cs in
        let o =
          object_opened env (load_json env f) f st.tokens y.0 s1 i (t ++ rest) c
            (unpacked i (34 ∷ t) rest) in
        let m = Moved-trans (Moved-trans y.4 (behind-Moved y.1 123 cs)) o.2 in
        let few =
          shorter s o.0 a cs (t ++ rest) 123 f e l o.2.rest
            (omega (arith, unpacked_length i (34 ∷ t) rest)) in
        Parsed-from (y.2 ∙ o.1) m (
          Parsed-at
            (ap (λ n. Token.object n (suc (length (encode_members ms))) ∷ encode_members ms)
              (zero_plus (count_members ms)))
            (members-Parsed xs f f 0 (set_token y.0 (length st.tokens) (Token.object 0 0)) o.0 rest
              st.tokens [] (set-HeadAt y.3 (Token.object 0 0)) (m.allow_hex ∙ x) o.2.rest few few))

    elements-Parsed :
        {es : Elements} {t : List ℕ}
        → ElementsText env hex es t
        → (f k n : ℕ) (st : Stack) (s : Source) (a rest : List ℕ) (base l : List Token)
        → HeadAt base (Token.array n 0) l st
        → Blank a
        → s.allow_hex ≡ hex
        → s.rest ≡ a ++ (t ++ rest)
        → left s < f
        → left s < k
        → Parsed base
            (Token.array (n + count es) (suc (length (l ++ encode_elements es)))
              ∷ (l ++ encode_elements es))
            s
            rest
            (elements (load_json env f) k (length base) st s)
    elements-Parsed xs f zero n st s a rest base l p b x e q r = absurd (omega (arith, r))
    elements-Parsed (last_element {v} {t} {b = i} j c) f (suc k) n st s a rest base l p b x e q r =
        let u = i ++ 93 ∷ rest in
        let e' = e ∙ ap (λ z. a ++ z) (one_packed t i 93 rest) in
        let y = value-Parsed j f st s a u p.is_stack b (Blank-Stops i 93 rest c refl) x e' q in
        let h = more-HeadAt p (encode v) y.tokens y.is_stack in
        let next = elements (load_json env f) k (length base) in
        let z =
          element_last-Parsed (load_json env f) f base next n (l ++ encode v) y.stack y.source i
            rest h c y.moved.rest in
        Parsed-from (ap (or_discard (element_loaded next (length base)) (length base)) y.is_loaded)
          y.moved
          (Parsed-at
            (ap (λ w. Token.array (n + 1) (suc (length (l ++ w))) ∷ (l ++ w))
              (sym (append-nil (encode v))))
            z)
    elements-Parsed (next_element {v} {es} {t} {b = i} {a = d} {ts} j c c' xs) f (suc k) n st s a
          rest base l p b x e q r =
        let u = i ++ 44 ∷ ((d ++ ts) ++ rest) in
        let e' = e ∙ ap (λ z. a ++ z) (two_packed t i 44 (d ++ ts) rest) in
        let y =
          value-Parsed j f st s a u p.is_stack b (Blank-Stops i 44 ((d ++ ts) ++ rest) c refl) x e'
            q in
        let h = more-HeadAt p (encode v) y.tokens y.is_stack in
        let next = elements (load_json env f) k (length base) in
        let o =
          element_next (load_json env f) f base next y.stack y.source i ((d ++ ts) ++ rest) c
            y.moved.rest in
        let m = Moved-trans y.moved o.2 in
        let few = fewer s o.0 a t i ((d ++ ts) ++ rest) 44 e' o.2.rest in
        Parsed-from
          (ap (or_discard (element_loaded next (length base)) (length base)) y.is_loaded ∙ o.1) m
          (Parsed-at (elements_packed n (count es) l (encode v) (encode_elements es)) (
            elements-Parsed xs f k (n + 1) (add_one y.stack (length base)) o.0 d rest base
              (l ++ encode v) (add_one-HeadAt h) c' (m.allow_hex ∙ x)
              (o.2.rest ∙ unpacked d ts rest) (omega (arith, few, q)) (omega (arith, few, r))))

    members-Parsed :
        {ms : Members} {t : List ℕ}
        → MembersText env hex ms t
        → (f k n : ℕ) (st : Stack) (s : Source) (rest : List ℕ) (base l : List Token)
        → HeadAt base (Token.object n 0) l st
        → s.allow_hex ≡ hex
        → s.rest ≡ t ++ rest
        → left s < f
        → left s < k
        → Parsed base
            (Token.object (n + count_members ms) (suc (length (l ++ encode_members ms)))
              ∷ (l ++ encode_members ms))
            s
            rest
            (members env (load_json env f) k (length base) 34 st s)
    members-Parsed xs f zero n st s rest base l p x e q r = absurd (omega (arith, r))
    members-Parsed (last_member {key} {k = w} {v} {a} {b} {t} {c} sp ba bb j bc) f (suc k) n st s
          rest base l p x e q r =
        let u = c ++ 125 ∷ rest in
        let e' =
          e
          ∙ member_packed w a b (t ++ (c ++ 125 ∷ [])) rest
          ∙ ap (λ z. w ++ 34 ∷ (a ++ 58 ∷ (b ++ z))) (one_packed t c 125 rest) in
        let next = members env (load_json env f) k (length base) in
        let g =
          member_named env total (load_json env f) f k base n l st s key w a (b ++ (t ++ u)) p sp ba
            e' in
        let y =
          value-Parsed j f g.0 g.1 b u g.3.is_stack bb (Blank-Stops c 125 rest bc refl)
            (g.4.allow_hex ∙ x) g.4.rest
            (omega (arith, named_fewer s g.1 w a (b ++ (t ++ u)) e' g.4.rest, q)) in
        let h = more-HeadAt g.3 (encode v) y.tokens y.is_stack in
        let z =
          member_last-Parsed (load_json env f) f base next n
            ((l ++ string_tokens true key) ++ encode v) y.stack y.source c rest h bc y.moved.rest in
        Parsed-from
          (g.2 ∙ ap (or_discard (member_loaded next (length base)) (length base)) y.is_loaded)
          (Moved-trans g.4 y.moved)
          (Parsed-at (member_last_packed n l (string_tokens true key) (encode v)) z)
    members-Parsed (next_member {key} {k = w} {v} {ms} {a} {b} {t} {c} {d} {ts} sp ba bb j bc bd xs)
          f (suc k) n st s rest base l p x e q r =
        let u = c ++ 44 ∷ ((d ++ 34 ∷ ts) ++ rest) in
        let e' =
          e
          ∙ member_packed w a b (t ++ (c ++ 44 ∷ (d ++ 34 ∷ ts))) rest
          ∙ ap (λ z. w ++ 34 ∷ (a ++ 58 ∷ (b ++ z))) (two_packed t c 44 (d ++ 34 ∷ ts) rest) in
        let next = members env (load_json env f) k (length base) in
        let g =
          member_named env total (load_json env f) f k base n l st s key w a (b ++ (t ++ u)) p sp ba
            e' in
        let less = named_fewer s g.1 w a (b ++ (t ++ u)) e' g.4.rest in
        let y =
          value-Parsed j f g.0 g.1 b u g.3.is_stack bb
            (Blank-Stops c 44 ((d ++ 34 ∷ ts) ++ rest) bc refl) (g.4.allow_hex ∙ x) g.4.rest
            (omega (arith, less, q)) in
        let h = more-HeadAt g.3 (encode v) y.tokens y.is_stack in
        let o =
          member_next (load_json env f) f base next y.stack y.source c d (ts ++ rest) bc bd
            (y.moved.rest ∙ ap (λ z. c ++ 44 ∷ z) (unpacked d (34 ∷ ts) rest)) in
        let m = Moved-trans (Moved-trans g.4 y.moved) o.2 in
        let few =
          fewer g.1 o.0 b t (c ++ 44 ∷ d) (ts ++ rest) 34
            (g.4.rest ∙ ap (λ z. b ++ (t ++ z)) (comma_packed c d ts rest)) o.2.rest in
        Parsed-from
          (g.2 ∙ ap (or_discard (member_loaded next (length base)) (length base)) y.is_loaded ∙ o.1)
          m
          (Parsed-at
            (members_packed n (count_members ms) l (string_tokens true key) (encode v)
              (encode_members ms))
            (members-Parsed xs f k (n + 1) (add_one y.stack (length base)) o.0 rest base
              ((l ++ string_tokens true key) ++ encode v) (add_one-HeadAt h) (m.allow_hex ∙ x)
              o.2.rest (omega (arith, few, less, q)) (omega (arith, few, less, r))))

  -- A JSON text with white space around it is parsed to the tokens of its value, behind the tokens that were
  -- there, and what stands behind the value is left, when all memory is there that is asked for. strtoul and
  -- strtod read just the text of its numbers, whatever stands behind them. Each character of its strings is one
  -- byte, or lies in their tokens as `fits` says. The tokens fit in what is allocated.
  pub parse_json-Json :
      (v : Value) (a t b : List ℕ) (st : Stack) (consts idents : Bool)
      → IsStack st
      → Blank a
      → Json env hex v t
      → Blank b
      → Parsed st.tokens
          (encode v)
          (source_from_string (a ++ (t ++ b)) hex consts idents)
          (b ++ 0 ∷ [])
          (parse_json env st (a ++ (t ++ b)) hex consts idents)
  unfolding parse_json source_from_string source_from_buffer peek_from
  parse_json-Json v a t b st consts idents i ba j bb =
      let text = a ++ (t ++ b) in
      let s = source_from_string text hex consts idents in
      let e : s.rest ≡ a ++ (t ++ (b ++ 0 ∷ [])) =
        append_assoc a (t ++ b) (0 ∷ []) ∙ ap (λ z. a ++ z) (append_assoc t b (0 ∷ [])) in
      value-Parsed j (suc (suc (length text))) st s a (b ++ 0 ∷ []) i ba
        (Blank-Stops b 0 [] bb refl) refl e (omega (arith, length-append text (0 ∷ [])))
