-- ===== src/Clib/Str/Search.antt =====
-- src/lib/string.c: strstr, and what it decides.
use aev_os.Common.{
  ℕ, zero, suc, ◌+◌, ◌≡◌, ◌≢◌, ◌↔◌, get_or, refl, sym, ap, ◌∙◌, Bool, true, false, ◌&&◌, Option,
  none, some, List, [], ◌∷◌, ◌++◌, ◌==◌, if◌then◌else◌, inl, inr, arith, take, drop, Bool-cases,
}
use aev_os.Common.Int.{ℤ, is_zero, pos, negsuc}
use aev_os.Clib.Str.{strlen, strncmp}
use aev_os.Clib.Str.Compare.{IsString, strncmp-eq_iff}

-- the loop of `strstr`, for a needle `c ∷ needle`
unfoldable pub strstr_from : List ℕ → ℕ → List ℕ → Option (List ℕ)
strstr_from [] c needle = none
strstr_from (x ∷ hay) c needle =
    let rest = strstr_from hay c needle in
    if (x == c) && is_zero (strncmp (x ∷ hay) (c ∷ needle) (strlen (c ∷ needle)))
    then some (x ∷ hay)
    else rest

unfoldable pub strstr : List ℕ → List ℕ → Option (List ℕ)
unfolding strstr_from
strstr hay [] = some hay
strstr hay (c ∷ needle) = strstr_from hay c needle

-- The needle stands in the string, somewhere.
abbrev pub Occurs : List ℕ → List ℕ → Type 0
Occurs needle hay = (before : List ℕ) × (behind : List ℕ) × (hay ≡ before ++ (needle ++ behind))

take-drop : (n : ℕ) (s : List ℕ) → take n s ++ drop n s ≡ s
take-drop zero s = refl
take-drop (suc n) [] = refl
take-drop (suc n) (x ∷ s) = ap (λ r. x ∷ r) (take-drop n s)

take_len-append : (s r : List ℕ) → take (strlen s) (s ++ r) ≡ s
unfolding strlen
take_len-append [] r = refl
take_len-append (x ∷ s) r =
    let e : strlen s + 1 ≡ suc (strlen s) = omega arith in
    ap (λ (n : ℕ). take n (x ∷ (s ++ r))) e ∙ ap (λ l. x ∷ l) (take_len-append s r)

take_len : (s : List ℕ) → take (strlen s) s ≡ s
unfolding strlen
take_len [] = refl
take_len (x ∷ s) =
    let e : strlen s + 1 ≡ suc (strlen s) = omega arith in
    ap (λ (n : ℕ). take n (x ∷ s)) e ∙ ap (λ l. x ∷ l) (take_len s)

zero_pos : (z : ℤ) → is_zero z ≡ true → z ≡ pos 0
zero_pos (pos n) h = ap pos (ground arith)
zero_pos (negsuc n) h = absurd (ground arith)

module _ (c : ℕ) (needle : List ℕ) (hn : IsString (c ∷ needle)) where
  abbrev test : ℕ → List ℕ → Bool
  test x hay = (x == c) && is_zero (strncmp (x ∷ hay) (c ∷ needle) (strlen (c ∷ needle)))

  test_hit :
      (x : ℕ) (hay : List ℕ)
      → IsString (x ∷ hay)
      → test x hay ≡ true
      → Occurs (c ∷ needle) (x ∷ hay)
  test_hit x hay hh t =
      let n = strlen (c ∷ needle) in
      let z = zero_pos (strncmp (x ∷ hay) (c ∷ needle) n) (ground (arith, t)) in
      let e = (strncmp-eq_iff (x ∷ hay) (c ∷ needle) n hh hn).0 z ∙ take_len (c ∷ needle) in
      ([], drop n (x ∷ hay), sym (take-drop n (x ∷ hay)) ∙ ap (λ l. l ++ drop n (x ∷ hay)) e)

  test_at :
      (x : ℕ) (hay behind : List ℕ)
      → IsString (x ∷ hay)
      → (x ∷ hay) ≡ (c ∷ needle) ++ behind
      → test x hay ≡ true
  test_at x hay behind hh e =
      let n = strlen (c ∷ needle) in
      let first : x ≡ c = ap (λ l. get_or l 0 0) e in
      let same : take n (x ∷ hay) ≡ take n (c ∷ needle) =
        ap (take n) e ∙ take_len-append (c ∷ needle) behind ∙ sym (take_len (c ∷ needle)) in
      let z = (strncmp-eq_iff (x ∷ hay) (c ∷ needle) n hh hn).1 same in
      ground (arith, first, ap is_zero z)

  strstr_from-Occurs :
      (hay : List ℕ) → IsString hay → (strstr_from hay c needle ≢ none) ↔ Occurs (c ∷ needle) hay
  unfolding strstr_from
  strstr_from-Occurs [] hh = (λ f. absurd (f refl), λ o. absurd (no_room o.1 o.0 o.2))
    where
      no_room : (behind before : List ℕ) → [] ≢ before ++ ((c ∷ needle) ++ behind)
      no_room behind [] e = cc e
      no_room behind (y ∷ before) e = cc e
  strstr_from-Occurs (x ∷ hay) hh = elim (Bool-cases (test x hay)) [
    | inl t ↦ rw t (λ f. test_hit x hay hh t, λ o e. cc e)
    | inr t ↦
        let ih = strstr_from-Occurs hay hh.1 in
        rw t (
          λ f. let o = ih.0 f in (x ∷ o.0, o.1, ap (λ l. x ∷ l) o.2),
          λ o. behind_first o.0 o.1 t ih o.2,
        )
  ]
    where
      behind_first :
          (before behind : List ℕ)
          → test x hay ≡ false
          → (strstr_from hay c needle ≢ none) ↔ Occurs (c ∷ needle) hay
          → (x ∷ hay) ≡ before ++ ((c ∷ needle) ++ behind)
          → strstr_from hay c needle ≢ none
      behind_first [] behind t ih e = absurd (cc (t, test_at x hay behind hh e))
      behind_first (y ∷ before) behind t ih e = ih.1 (before, behind, ap (drop 1) e)

-- strstr of strings gives a place exactly if the needle stands in the string somewhere.
pub strstr-Occurs :
    (hay needle : List ℕ)
    → IsString hay
    → IsString needle
    → (strstr hay needle ≢ none) ↔ Occurs needle hay
unfolding strstr
strstr-Occurs hay [] hh hn = (λ f. ([], hay, refl), λ o e. cc e)
strstr-Occurs hay (c ∷ needle) hh hn = strstr_from-Occurs c needle hn hay hh
