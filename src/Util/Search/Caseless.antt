-- ===== src/Util/Search/Caseless.antt =====
-- sxe_strncasestr of lib-sxe-util/sxe-str.c.
use libsxe.Base.{
  ℕ, zero, suc, ◌+◌, ◌-◌, Bool, List, [], ◌∷◌, Option, none, some, ◌==◌, ltb, if◌then◌else◌, length,
}
use libsxe.Util.Search.{map_suc}

-- `strncasecmp_equal` tells whether strncasecmp of the C library gives 0 for the bytes
-- from two pointers on, up to a length.
module _ (strncasecmp_equal : List ℕ → List ℕ → ℕ → Bool) where
  unfoldable pub strncasestr_loop : List ℕ → List ℕ → ℕ → Option ℕ
  strncasestr_loop buf str' zero = none
  strncasestr_loop [] str' (suc n) = none
  strncasestr_loop (b ∷ buf) str' (suc n) =
      let rest = map_suc (strncasestr_loop buf str' n) in
      if b == 0
      then none
      else if strncasecmp_equal (b ∷ buf) str' (length str')
      then some 0
      else rest

  unfoldable pub strncasestr : List ℕ → List ℕ → ℕ → Option ℕ
  strncasestr buf str' n =
      if ltb n (length str') then none else strncasestr_loop buf str' (n - length str' + 1)
