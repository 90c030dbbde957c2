-- ===== src/Jitson/Finish/Collections.antt =====
-- Arrays and objects of lib-sxe-jitson/sxe-jitson-stack.c, around the parser of a value.
use libsxe.Base.{
  ℕ, zero, suc, ◌≤◌, ◌<◌, ◌≡◌, ◌≢◌, refl, true, List, Option, none, some, ◌==◌, Bool-cases, inl,
  inr, arith, length,
}
use libsxe.Jitson.{Token, array, object, Stack, set_token, add_one}
use libsxe.Jitson.Source.{Source, push_char, get_nonspace}
use libsxe.Jitson.Text.{Outcome, einval, load_string}
use libsxe.Jitson.Load.{
  Environment, behind_element, element_loaded, elements, pushed_back, load_array, behind_comma,
  behind_member, member_loaded, name_loaded, members, load_object,
}
use libsxe.Jitson.Consume.{left, get_nonspace_le, get_nonspace_lt, Read, nonspace_pushed}
use libsxe.Jitson.Expand.{IsStack}
use libsxe.Jitson.Frame.{Built, set-Built}
use libsxe.Jitson.Finish.{Fine, Continues, or_discard-Fine, fail_at-Fine}
use libsxe.Jitson.Finish.Strings.{load_string-Fine}

module _ (base : List Token) (n : ℕ) where
  pub set-Fine :
      (st : Stack) (t : Token) (s : Source)
      → Built base st
      → left s ≤ n
      → Fine base n (Outcome.loaded (set_token st (length base) t) s)
  set-Fine st t s b l = (set-Built (length base) t (omega arith) b, l)

  module _ (next : Stack → Source → Outcome) where
    behind_element-Fine :
        (st : Stack) (c : ℕ) (s : Source)
        → Built base st
        → left s ≤ n
        → (c ≢ 0 → Fine base n (next st s))
        → Fine base n (behind_element next (length base) st c s)
    unfolding behind_element
    behind_element-Fine st c s b l k = elim (Bool-cases (c == 44)) [
      | inl e ↦ rw e (k (ground (arith, e)))
      | inr e ↦ elim (Bool-cases (c == 93)) [
        | inl q ↦ rw (e, q) (set-Fine st _ s b l)
        | inr q ↦ rw (e, q) (fail_at-Fine einval n s b)
      ]
    ]

    element_loaded-Fine :
        (st : Stack) (s : Source)
        → Built base st
        → left s ≤ n
        → Continues base (left s) n next
        → Fine base n (element_loaded next (length base) st s)
    unfolding element_loaded
    element_loaded-Fine st s b l k =
        let b' = set-Built (length base) _ (omega arith) b in
        let s' : Source = (get_nonspace s).1 in
        behind_element-Fine (add_one st (length base)) (get_nonspace s).0 s' b'
          (omega (arith, l, get_nonspace_le s))
          (λ h. k (add_one st (length base)) s' b' (get_nonspace_lt s h))

    pub pushed_back-Fine :
        (st : Stack) (m : ℕ) (o : Option Source)
        → ((s : Source) → o ≡ some s → left s < m)
        → Built base st
        → Continues base m n next
        → Fine base n (pushed_back next st o)
    unfolding pushed_back
    pushed_back-Fine st m none h b k = tt
    pushed_back-Fine st m (some s) h b k = k st s b (h s refl)

-- A parser of values that ends well where less than `f` bytes are left.
abbrev pub Ends : ℕ → (Stack → Source → Outcome) → Type 0
Ends f value =
    (st : Stack) (s : Source) → IsStack st → left s < f → Fine st.tokens (left s) (value st s)

module _ (f : ℕ) (value : Stack → Source → Outcome) (v : Ends f value) where
  elements-Fine :
      (base : List Token) (n fuel : ℕ) (st : Stack) (s : Source)
      → Built base st
      → fuel ≤ f
      → left s < fuel
      → left s ≤ n
      → Fine base n (elements value fuel (length base) st s)
  unfolding elements
  elements-Fine base n zero st s b u h l = absurd (omega (arith, h))
  elements-Fine base n (suc fuel) st s b u h l =
      or_discard-Fine base st (left s) n
        (element_loaded (elements value fuel (length base)) (length base)) (value st s) b
        (v st s b.is_stack (omega (arith, u, h)))
        (λ st' s' b' l'.
          element_loaded-Fine base n (elements value fuel (length base)) st' s' b'
            (omega (arith, l, l'))
            (λ st'' s'' b'' l''.
              elements-Fine base n fuel st'' s'' b'' (omega (arith, u)) (omega (arith, h, l', l''))
                (omega (arith, l, l', l''))))

  pub load_array-Fine :
      (base : List Token) (st : Stack) (s : Source)
      → Built base st
      → Read s.before
      → left s < f
      → Fine base (left s) (load_array value f (length base) st s)
  unfolding load_array
  load_array-Fine base st s b r h = elim (Bool-cases ((get_nonspace s).0 == 93)) [
    | inl e ↦ rw e (set-Fine base (left s) st (array 0 1) (get_nonspace s).1 b (get_nonspace_le s))
    | inr e ↦ rw e (
        pushed_back-Fine base (left s) (elements value f (length base))
          (set_token st (length base) (array 0 0)) (suc (left s))
          (push_char (get_nonspace s).1 (get_nonspace s).0)
          (λ s' q. let p = nonspace_pushed s s' r q in omega (arith, p))
          (set-Built (length base) (array 0 0) (omega arith) b)
          (λ st' s' b' l'.
            elements-Fine base (left s) f st' s' b' (omega arith) (omega (arith, h, l'))
              (omega (arith, l'))))
  ]

-- The same for what goes on with a byte that is read already.
abbrev Resumes : List Token → ℕ → ℕ → (ℕ → Stack → Source → Outcome) → Type 0
Resumes base m n next =
    (c : ℕ) (st : Stack) (s : Source) → Built base st → left s < m → Fine base n (next c st s)

module _ (base : List Token) (n : ℕ) (next : ℕ → Stack → Source → Outcome) where
  behind_comma-Fine :
      (st : Stack) (s : Source) (m : ℕ)
      → Built base st
      → left s < m
      → Resumes base m n next
      → Fine base n (behind_comma next (length base) st (get_nonspace s))
  unfolding behind_comma
  behind_comma-Fine st s m b l k = elim (Bool-cases ((get_nonspace s).0 == 0)) [
    | inl e ↦ rw e (fail_at-Fine einval n (get_nonspace s).1 b)
    | inr e ↦
        rw e (k (get_nonspace s).0 st (get_nonspace s).1 b (omega (arith, l, get_nonspace_le s)))
  ]

  behind_member-Fine :
      (st : Stack) (c : ℕ) (s : Source) (m : ℕ)
      → Built base st
      → left s ≤ n
      → (c ≢ 0 → left s < m)
      → Resumes base m n next
      → Fine base n (behind_member next (length base) st c s)
  unfolding behind_member
  behind_member-Fine st c s m b l h k = elim (Bool-cases (c == 44)) [
    | inl e ↦ rw e (behind_comma-Fine st s m b (h (ground (arith, e))) k)
    | inr e ↦ elim (Bool-cases (c == 125)) [
      | inl q ↦ rw (e, q) (set-Fine base n st _ s b l)
      | inr q ↦ rw (e, q) (fail_at-Fine einval n s b)
    ]
  ]

  member_loaded-Fine :
      (st : Stack) (s : Source)
      → Built base st
      → left s ≤ n
      → Resumes base (left s) n next
      → Fine base n (member_loaded next (length base) st s)
  unfolding member_loaded
  member_loaded-Fine st s b l k =
      behind_member-Fine (add_one st (length base)) (get_nonspace s).0 (get_nonspace s).1 (left s)
        (set-Built (length base) _ (omega arith) b) (omega (arith, l, get_nonspace_le s))
        (get_nonspace_lt s) k

  name_loaded-Fine :
      (f : ℕ) (value : Stack → Source → Outcome)
      → Ends f value
      → (st : Stack) (s : Source) → Built base st
      → left s ≤ n
      → left s < f
      → Resumes base (left s) n next
      → Fine base n (name_loaded value next (length base) st s)
  unfolding name_loaded
  name_loaded-Fine f value v st s b l h k =
      let s' : Source = (get_nonspace s).1 in
      let p : left s' ≤ left s = get_nonspace_le s in
      elim (Bool-cases ((get_nonspace s).0 == 58)) [
        | inl e ↦ rw e (
            or_discard-Fine base st (left s') n (member_loaded next (length base)) (value st s') b
              (v st s' b.is_stack (omega (arith, p, h)))
              (λ st' t b' l'.
                member_loaded-Fine st' t b' (omega (arith, p, l, l'))
                  (λ c st'' t' b'' l''. k c st'' t' b'' (omega (arith, p, l', l'')))))
        | inr e ↦ rw e (fail_at-Fine einval n s' b)
      ]

module _ (env : Environment) where
  module _ (f : ℕ) (value : Stack → Source → Outcome) (v : Ends f value) (base : List Token) where
    members-Fine :
        (n fuel c : ℕ) (st : Stack) (s : Source)
        → Built base st
        → fuel ≤ f
        → left s < fuel
        → left s ≤ n
        → Fine base n (members env value fuel (length base) c st s)
    unfolding members
    members-Fine n zero c st s b u h l = absurd (omega (arith, h))
    members-Fine n (suc fuel) c st s b u h l = elim (Bool-cases (c == 34)) [
      | inr e ↦ rw e (fail_at-Fine einval n s b)
      | inl e ↦ rw e (
          or_discard-Fine base st (left s) n
            (name_loaded value (members env value fuel (length base)) (length base))
            (load_string env.can_allocate st s true) b
            (load_string-Fine env.can_allocate st s true b.is_stack)
            (λ st' s' b' l'.
              name_loaded-Fine base n (members env value fuel (length base)) f value v st' s' b'
                (omega (arith, l, l')) (omega (arith, u, h, l'))
                (λ c' st'' s'' b'' l''.
                  members-Fine n fuel c' st'' s'' b'' (omega (arith, u)) (omega (arith, h, l', l''))
                    (omega (arith, l, l', l'')))))
    ]

    pub load_object-Fine :
        (st : Stack) (s : Source)
        → Built base st
        → left s < f
        → Fine base (left s) (load_object env value f (length base) st s)
    unfolding load_object
    load_object-Fine st s b h =
        let s' : Source = (get_nonspace s).1 in
        let p : left s' ≤ left s = get_nonspace_le s in
        elim (Bool-cases ((get_nonspace s).0 == 125)) [
          | inl e ↦ rw e (set-Fine base (left s) st (object 0 1) s' b p)
          | inr e ↦ rw e (
              members-Fine (left s) f (get_nonspace s).0 (set_token st (length base) (object 0 0))
                s' (set-Built (length base) (object 0 0) (omega arith) b) (omega arith)
                (omega (arith, p, h)) p)
        ]
