-- ===== src/SearchTokens/Laws.antt =====
-- Every fragment that starts a word of an indexed field finds its server.
use mathlib.Core.List.{Memᴰ}
use mathlib.Core.List.Memᴰ
use server_scan.Prelude.{
  ℕ, zero, suc, ◌≤◌, String, Bool, true, false, ◌||◌, Bool-cases, inl, inr, Option, none, some,
  List, [], ◌∷◌, any, map, take, length, str_eq, eq_iff, str_length, str_take, starts, leb, ltb,
  ◌≡◌, refl, sym, ap, subst, ◌∙◌, arith, if◌then◌else◌,
}
use server_scan.Prelude.Order.{Order, str_order}
use server_scan.Prelude.Result.{returned, raised}
use server_scan.Prelude.Sort.{insert, sort}
use server_scan.Prelude.Sort.Laws.{length-sort}
use server_scan.SearchTokens.{
  TokenSource, add_token, suffixes, add_suffixes, without_colons, add_mac, add_macs, add, add_all,
  leading_fields, indexed_fields, token_set, build_search_tokens,
}
use server_scan.Listing.{build_search_query, search_query_too_short, search_query_too_long}

module _ {ℓ} {A : Type ℓ} (o : Order A) (p : A → Bool) where
  any-insert : (x : A) (ys : List A) → any p (insert o x ys) ≡ (p x || any p ys)
  unfolding insert
  any-insert x [] = refl
  any-insert x (y ∷ ys) = ground (arith, any-insert x ys)

  any-sort : (xs : List A) → any p (sort o xs) ≡ any p xs
  unfolding sort
  any-sort [] = refl
  any-sort (x ∷ xs) = any-insert x (sort o xs) ∙ ap (λ b. p x || b) (any-sort xs)

take-whole {ℓ} : {A : Type ℓ} (n : ℕ) (xs : List A) → length xs ≤ n → take n xs ≡ xs
take-whole zero [] h = refl
take-whole zero (x ∷ xs) h = absurd (omega arith)
take-whole (suc n) [] h = refl
take-whole (suc n) (x ∷ xs) h = ap (◌∷◌ x) (take-whole n xs (omega arith))

starts-take :
    (n : ℕ) (q s : String) → str_length q ≤ n → starts q s ≡ true → starts q (str_take n s) ≡ true
unfolding starts
starts-take n String.[] s h k = refl
starts-take zero (String.◌∷◌ d q) s h k = absurd (omega arith)
starts-take (suc n) (String.◌∷◌ d q) String.[] h k = cc k
starts-take (suc n) (String.◌∷◌ d q) (String.◌∷◌ c s) h k =
    let small : str_length q ≤ n = omega arith in ground (arith, starts-take n q s small)

module _ (q : String) where
  -- Some token starts with the query.
  abbrev Finds : List String → Type 0
  Finds tokens = any (starts q) tokens ≡ true

  any_of_member :
      (t : String) (ts : List String) → any (str_eq t) ts ≡ true → starts q t ≡ true → Finds ts
  any_of_member t [] h k = cc h
  any_of_member t (u ∷ ts) h k = ground (arith, eq_iff t u, any_of_member t ts)

  add_token-here : (t : String) (ts : List String) → starts q t ≡ true → Finds (add_token t ts)
  add_token-here t ts h = ground (arith, any_of_member t ts)

  add_token-there : (t : String) (ts : List String) → Finds ts → Finds (add_token t ts)
  add_token-there t ts h = ground arith

  add_suffixes-there : (ss ts : List String) → Finds ts → Finds (add_suffixes ss ts)
  add_suffixes-there [] ts h = h
  add_suffixes-there (s ∷ ss) ts h =
      add_suffixes-there ss _ (ground (arith, add_token-there (str_take 64 s) ts))

  add_suffixes-here :
      (s : String) {ss : List String} (ts : List String)
      → Memᴰ s ss
      → 2 ≤ str_length s
      → starts q s ≡ true
      → str_length q ≤ 64
      → Finds (add_suffixes ss ts)
  add_suffixes-here s ts (Memᴰ.head {x = u} {xs = ss} e) long k short =
      let big : leb 2 (str_length s) ≡ true = ground arith in
      subst (λ x. Finds (add_suffixes (x ∷ ss) ts)) e
        (rw big (
          add_suffixes-there ss _ (add_token-here (str_take 64 s) ts (starts-take 64 q s short k))))
  add_suffixes-here s ts (Memᴰ.tail {x = u} {xs = ss} m) long k short =
      add_suffixes-here s (if leb 2 (str_length u) then add_token (str_take 64 u) ts else ts) m long
        k short

  add_mac-there : (mac : Option String) (ts : List String) → Finds ts → Finds (add_mac mac ts)
  add_mac-there none ts h = h
  add_mac-there (some mac) ts h =
      ground
        (arith, add_token-there (without_colons mac) (add_token mac ts), add_token-there mac ts)

  add_macs-there : (macs ts : List String) → Finds ts → Finds (add_macs macs ts)
  add_macs-there [] ts h = h
  add_macs-there (m ∷ ms) ts h =
      add_macs-there ms (add_mac (some m) ts) (add_mac-there (some m) ts h)

  module _ (lower : String → String) where
    add-there : (v : Option String) (ts : List String) → Finds ts → Finds (add lower v ts)
    add-there none ts h = h
    add-there (some v) ts h = ground (arith, add_suffixes-there (suffixes false (lower v)) ts)

    add_all-there :
        (vs : List (Option String)) (ts : List String) → Finds ts → Finds (add_all lower vs ts)
    add_all-there [] ts h = h
    add_all-there (v ∷ vs) ts h = add_all-there vs (add lower v ts) (add-there v ts h)

    module _ (v s : String) (filled : str_eq v "" ≡ false) (m : Memᴰ s (suffixes false (lower v)))
        (long : 2 ≤ str_length s) (k : starts q s ≡ true) (short : str_length q ≤ 64) where
      add_all-here :
          {vs : List (Option String)} (ts : List String)
          → Memᴰ (some v) vs
          → Finds (add_all lower vs ts)
      add_all-here ts (Memᴰ.head {x = u} {xs = vs} e) =
          subst (λ x. Finds (add_all lower (x ∷ vs) ts)) e
            (rw filled (add_all-there vs _ (add_suffixes-here s ts m long k short)))
      add_all-here ts (Memᴰ.tail {x = u} {xs = vs} n) = add_all-here (add lower u ts) n

      add-here : (ts : List String) → Finds (add lower (some v) ts)
      add-here ts = rw filled (add_suffixes-here s ts m long k short)

      addressed-Finds :
          (server : TokenSource) (ts : List String)
          → Finds ts
          → Finds (
              add lower server.bmc_host
                (add_macs (take 8 server.nic_macs) (add_mac server.bmc_mac ts)))
      addressed-Finds server ts h =
          add-there server.bmc_host _
            (add_macs-there (take 8 server.nic_macs) _ (add_mac-there server.bmc_mac ts h))

      host-Finds :
          (host : Option String) (ts : List String) → some v ≡ host → Finds (add lower host ts)
      host-Finds host ts e = subst (λ h. Finds (add lower h ts)) e (add-here ts)

      token_set-Finds :
          (server : TokenSource)
          → Memᴰ (some v) (indexed_fields lower server)
          → Finds (token_set lower server)
      unfolding token_set
      token_set-Finds server n = elim (Memᴰ.append_cases (leading_fields lower server) n) [
        | inl leading ↦
            addressed-Finds server _
              (add_all-there (map some server.tags) _ (add_all-here [] leading))
        | inr later ↦ elim (Memᴰ.append_cases (map some server.tags) later) [
          | inl tagged ↦ addressed-Finds server _ (add_all-here _ tagged)
          | inr last ↦ elim last [
            | Memᴰ.head e ↦ host-Finds server.bmc_host _ e
            | Memᴰ.tail none_left ↦ absurd (Memᴰ.not-nil none_left)
          ]
        ]
      ]

      tokens-Finds :
          (server : TokenSource)
          → Memᴰ (some v) (indexed_fields lower server)
          → length (token_set lower server) ≤ 64
          → Finds (build_search_tokens lower server)
      unfolding build_search_tokens
      tokens-Finds server n few =
          let all : length (sort str_order (token_set lower server)) ≤ 64 =
            rw (length-sort str_order (token_set lower server)) few in
          rw (take-whole 64 (sort str_order (token_set lower server)) all)
            (any-sort str_order (starts q) (token_set lower server) ∙ token_set-Finds server n)

finds_of_query :
    (lower : String → String) (raw : String) (finds : List String → Bool)
    → build_search_query lower raw ≡ returned finds
    → finds ≡ any (starts (lower raw))
unfolding build_search_query
finds_of_query lower raw finds h = elim (Bool-cases (ltb (str_length raw) 2)) [
  | inl short ↦ let e : raised search_query_too_short ≡ returned finds = rw short at h in cc e
  | inr enough ↦ elim (Bool-cases (ltb 64 (str_length raw))) [
    | inl long ↦
        let e : raised search_query_too_long ≡ returned finds = rw (enough, long) at h in cc e
    | inr fits ↦
        let e : returned (any (starts (lower raw))) ≡ returned finds = rw (enough, fits) at h in
        sym (cc e)
  ]
]

-- A search finds a server by any fragment that starts a word of one of its indexed fields, tags and BMC
-- host included: where the field is not empty, its suffix at that word has two characters or more, the
-- lowered query has at most 64, and the server no more tokens than are kept.
pub build_search_query-build_search_tokens :
    (lower : String → String) (server : TokenSource) (raw v s : String) (finds : List String → Bool)
    → Memᴰ (some v) (indexed_fields lower server)
    → str_eq v "" ≡ false
    → Memᴰ s (suffixes false (lower v))
    → 2 ≤ str_length s
    → starts (lower raw) s ≡ true
    → str_length (lower raw) ≤ 64
    → length (token_set lower server) ≤ 64
    → build_search_query lower raw ≡ returned finds
    → finds (build_search_tokens lower server) ≡ true
build_search_query-build_search_tokens lower server raw v s finds n filled m long k short few h =
    let found = tokens-Finds (lower raw) lower v s filled m long k short server n few in
    let same : finds ≡ any (starts (lower raw)) = finds_of_query lower raw finds h in
    subst (λ f. f (build_search_tokens lower server) ≡ true) (sym same) found
