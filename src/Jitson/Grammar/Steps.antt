-- ===== src/Jitson/Grammar/Steps.antt =====
-- One round of each loop of lib-sxe-jitson/sxe-jitson-stack.c over the elements or the members of a collection.
use libsxe.Base.{ℕ, suc, ◌+◌, ◌≡◌, refl, false, List, [], ◌∷◌, ◌++◌, ◌==◌, length}
use libsxe.Jitson.{
  Token, raw, array, object, Stack, set_token, add_one, close_at, count_one, with_size,
}
use libsxe.Jitson.Source.{Source, behind, isspace}
use libsxe.Jitson.Text.{Outcome, loaded}
use libsxe.Jitson.Load.{
  Environment, or_discard, behind_element, element_loaded, elements, pushed_back, load_array,
  behind_comma, behind_member, member_loaded, name_loaded, members, load_object,
}
use libsxe.Jitson.Strings.Escapes.{Moved, Moved-trans, behind-Moved}
use libsxe.Jitson.Grammar.{Blank}
use libsxe.Jitson.Grammar.Scan.{get_nonspace-Blank, push_char-behind}
use libsxe.Jitson.Grammar.Heads.{HeadAt, set-HeadAt, add_one-HeadAt, close_at-HeadAt}
use libsxe.Jitson.Grammar.Scalars.{Parsed}

-- A collection that is closed.
closed-Parsed :
    (base l : List Token) (t : Token) (st : Stack) (s s' : Source) (rest : List ℕ)
    → HeadAt base t l st
    → Moved s s' rest
    → Parsed base (with_size (suc (length l)) t ∷ l) s rest (loaded (close_at st (length base)) s')
closed-Parsed base l t st s s' rest p m =
    let h = close_at-HeadAt p in
    record {
      stack = close_at st (length base);
      source = s';
      is_loaded = refl;
      tokens = h.tokens;
      is_stack = h.is_stack;
      moved = m;
    }

-- An empty collection.
empty-Parsed :
    (base l : List Token) (t t' : Token) (st : Stack) (s s' : Source) (rest : List ℕ)
    → HeadAt base t l st
    → Moved s s' rest
    → Parsed base (t' ∷ l) s rest (loaded (set_token st (length base) t') s')
empty-Parsed base l t t' st s s' rest p m =
    let h = set-HeadAt p t' in
    record {
      stack = set_token st (length base) t';
      source = s';
      is_loaded = refl;
      tokens = h.tokens;
      is_stack = h.is_stack;
      moved = m;
    }

module _ (value : Stack → Source → Outcome) (f : ℕ) (base : List Token) where
  pub array_empty-Parsed :
      (st : Stack) (s : Source) (a rest : List ℕ)
      → HeadAt base raw [] st
      → Blank a
      → s.rest ≡ a ++ 93 ∷ rest
      → Parsed base (array 0 1 ∷ []) s rest (load_array value f (length base) st s)
  unfolding load_array
  array_empty-Parsed st s a rest p b e =
      let g = get_nonspace-Blank s a 93 rest b refl e in
      rw g.1 (
        empty-Parsed base [] raw (array 0 1) st s (behind g.0 93 rest) rest p
          (Moved-trans g.2 (behind-Moved g.0 93 rest)))

  pub array_opened :
      (st : Stack) (s : Source) (a cs : List ℕ) (c : ℕ)
      → Blank a
      → isspace c ≡ false
      → (c == 93) ≡ false
      → s.rest ≡ a ++ c ∷ cs
      → (s' : Source) × (load_array value f (length base) st s
          ≡ elements value f (length base) (set_token st (length base) (array 0 0)) s')
        × Moved s s' (c ∷ cs)
  unfolding load_array pushed_back
  array_opened st s a cs c b n h e =
      let g = get_nonspace-Blank s a c cs b n e in
      let q = push_char-behind g.0 c cs g.2.rest in
      (q.0, rw (g.1, h, q.1) refl, Moved-trans g.2 q.2)

  pub element_last-Parsed :
      (next : Stack → Source → Outcome) (n : ℕ) (l : List Token) (st : Stack) (s : Source)
      (b rest : List ℕ)
      → HeadAt base (array n 0) l st
      → Blank b
      → s.rest ≡ b ++ 93 ∷ rest
      → Parsed base
          (array (n + 1) (suc (length l)) ∷ l)
          s
          rest
          (element_loaded next (length base) st s)
  unfolding element_loaded behind_element count_one with_size
  element_last-Parsed next n l st s b rest p w e =
      let g = get_nonspace-Blank s b 93 rest w refl e in
      rw g.1 (
        closed-Parsed base l (array (n + 1) 0) (add_one st (length base)) s (behind g.0 93 rest)
          rest (add_one-HeadAt p) (Moved-trans g.2 (behind-Moved g.0 93 rest)))

  pub element_next :
      (next : Stack → Source → Outcome) (st : Stack) (s : Source) (b cs : List ℕ)
      → Blank b
      → s.rest ≡ b ++ 44 ∷ cs
      → (s' : Source) × (element_loaded next (length base) st s
          ≡ next (add_one st (length base)) s')
        × Moved s s' cs
  unfolding element_loaded behind_element
  element_next next st s b cs w e =
      let g = get_nonspace-Blank s b 44 cs w refl e in
      (behind g.0 44 cs, rw g.1 refl, Moved-trans g.2 (behind-Moved g.0 44 cs))

  pub name_next :
      (next : ℕ → Stack → Source → Outcome) (st : Stack) (s : Source) (a cs : List ℕ)
      → Blank a
      → s.rest ≡ a ++ 58 ∷ cs
      → (s' : Source) × (name_loaded value next (length base) st s
          ≡ or_discard (member_loaded next (length base)) (length base) (value st s'))
        × Moved s s' cs
  unfolding name_loaded
  name_next next st s a cs w e =
      let g = get_nonspace-Blank s a 58 cs w refl e in
      (behind g.0 58 cs, rw g.1 refl, Moved-trans g.2 (behind-Moved g.0 58 cs))

  pub member_last-Parsed :
      (next : ℕ → Stack → Source → Outcome) (n : ℕ) (l : List Token) (st : Stack) (s : Source)
      (b rest : List ℕ)
      → HeadAt base (object n 0) l st
      → Blank b
      → s.rest ≡ b ++ 125 ∷ rest
      → Parsed base
          (object (n + 1) (suc (length l)) ∷ l)
          s
          rest
          (member_loaded next (length base) st s)
  unfolding member_loaded behind_member count_one with_size
  member_last-Parsed next n l st s b rest p w e =
      let g = get_nonspace-Blank s b 125 rest w refl e in
      rw g.1 (
        closed-Parsed base l (object (n + 1) 0) (add_one st (length base)) s (behind g.0 125 rest)
          rest (add_one-HeadAt p) (Moved-trans g.2 (behind-Moved g.0 125 rest)))

  pub member_next :
      (next : ℕ → Stack → Source → Outcome) (st : Stack) (s : Source) (b d cs : List ℕ)
      → Blank b
      → Blank d
      → s.rest ≡ b ++ 44 ∷ (d ++ 34 ∷ cs)
      → (s' : Source) × (member_loaded next (length base) st s
          ≡ next 34 (add_one st (length base)) s')
        × Moved s s' cs
  unfolding member_loaded behind_member behind_comma
  member_next next st s b d cs w x e =
      let g = get_nonspace-Blank s b 44 (d ++ 34 ∷ cs) w refl e in
      let h = get_nonspace-Blank (behind g.0 44 (d ++ 34 ∷ cs)) d 34 cs x refl refl in
      (
        behind h.0 34 cs,
        rw (g.1, h.1) refl,
        Moved-trans g.2 (
            Moved-trans (behind-Moved g.0 44 (d ++ 34 ∷ cs))
              (Moved-trans h.2 (behind-Moved h.0 34 cs))),
      )

module _ (env : Environment) (value : Stack → Source → Outcome) (f : ℕ) (base : List Token) where
  pub object_empty-Parsed :
      (st : Stack) (s : Source) (a rest : List ℕ)
      → HeadAt base raw [] st
      → Blank a
      → s.rest ≡ a ++ 125 ∷ rest
      → Parsed base (object 0 1 ∷ []) s rest (load_object env value f (length base) st s)
  unfolding load_object
  object_empty-Parsed st s a rest p b e =
      let g = get_nonspace-Blank s a 125 rest b refl e in
      rw g.1 (
        empty-Parsed base [] raw (object 0 1) st s (behind g.0 125 rest) rest p
          (Moved-trans g.2 (behind-Moved g.0 125 rest)))

  pub object_opened :
      (st : Stack) (s : Source) (a cs : List ℕ)
      → Blank a
      → s.rest ≡ a ++ 34 ∷ cs
      → (s' : Source) × (load_object env value f (length base) st s
          ≡ members env value f (length base) 34 (set_token st (length base) (object 0 0)) s')
        × Moved s s' cs
  unfolding load_object
  object_opened st s a cs b e =
      let g = get_nonspace-Blank s a 34 cs b refl e in
      (behind g.0 34 cs, rw g.1 refl, Moved-trans g.2 (behind-Moved g.0 34 cs))
