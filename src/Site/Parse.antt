-- ===== src/Site/Parse.antt =====
-- What a name's site is.
use server_scan.Prelude.{
  ℕ, String, true, false, Bool-cases, inl, inr, Option, none, some, List, [], ◌∷◌, any, all, All,
  All-map, str_eq, eq_iff, leb, dict_set, ◌≡◌, refl, ap, subst, arith, if◌then◌else◌,
}
use server_scan.Site.{
  smaller, SiteDefinition, note_all, hits, matches, codes_only, with_tokens, with_aliases, leftmost,
  of_aliases, of_codes, tokens_of, parse,
}
use server_scan.Site.Laws.{
  note_all-same, note_all-other, HasTwo, Values, Sites, dict_set-Values, matches-Sites,
}

of_codes-HasTwo :
    (ps : List (String × ℕ)) (second : Option String) → HasTwo ps → of_codes ps second ≡ none
of_codes-HasTwo [] second h = absurd h
of_codes-HasTwo (p ∷ []) second h = absurd h
of_codes-HasTwo (p ∷ q ∷ ps) second h = refl

-- The sites that satisfy `P` by the name they are found under.
module _ (P : String → Type 0) where
  codes_only-Values :
      (ds : List SiteDefinition) (acc : List (String × String))
      → All (λ d. P d.code) ds
      → Values P acc
      → Values P (codes_only acc ds)
  codes_only-Values [] acc h k = k
  codes_only-Values (d ∷ ds) acc (p, h) k =
      codes_only-Values ds (dict_set d.code d.code acc) h (dict_set-Values P d.code d.code acc p k)

  with_tokens-Values :
      (code : String) (ts : List String) (acc : List (String × String))
      → P code
      → Values P acc
      → Values P (with_tokens code ts acc)
  with_tokens-Values code [] acc p k = k
  with_tokens-Values code (t ∷ ts) acc p k =
      with_tokens-Values code ts (dict_set t code acc) p (dict_set-Values P t code acc p k)

  with_aliases-Values :
      (ds : List SiteDefinition) (acc : List (String × String))
      → All (λ d. P d.code) ds
      → Values P acc
      → Values P (with_aliases acc ds)
  with_aliases-Values [] acc h k = k
  with_aliases-Values (d ∷ ds) acc (p, h) k =
      with_aliases-Values ds (with_tokens d.code (d.code ∷ d.aliases) acc) h
        (with_tokens-Values d.code (d.code ∷ d.aliases) acc p k)

  abbrev Holds : Option String → Type 0
  Holds none = Unit
  Holds (some c) = P c

  leftmost-P :
      (ps : List (String × ℕ)) (best : String × ℕ) → P best.0 → Sites P ps → P (leftmost best ps).0
  leftmost-P [] best p h = p
  leftmost-P ((d, j) ∷ ps) (c, i) p (q, h) = elim (Bool-cases (leb i j)) [
    | inl e ↦ rw e (leftmost-P ps (c, i) p h)
    | inr e ↦ rw e (leftmost-P ps (d, j) q h)
  ]

  of_aliases-Holds : (ps : List (String × ℕ)) → Sites P ps → Holds (of_aliases ps)
  of_aliases-Holds [] h = tt
  of_aliases-Holds (p ∷ ps) (q, h) = leftmost-P ps p q h

  of_codes-Holds :
      (ps : List (String × ℕ)) (second : Option String)
      → Sites P ps
      → Holds second
      → Holds (of_codes ps second)
  of_codes-Holds [] second h k = k
  of_codes-Holds (p ∷ []) second (q, h) k = q
  of_codes-Holds (p ∷ q ∷ ps) second h k = tt

all_codes : (ds : List SiteDefinition) → All (λ d. any (λ e. str_eq e.code d.code) ds ≡ true) ds
all_codes [] = tt
all_codes (d ∷ ds) = (
  rw ((eq_iff d.code d.code).1 refl) refl,
  All-map _ ds (λ e h. ground (arith, h)) (all_codes ds),
)

matches-hits :
    (ts : List String) (d : List (String × String)) (code : String) (index : ℕ)
    (more : List (String × ℕ))
    → hits ts d ≡ (code, index) ∷ more
    → matches ts d ≡ note_all ((code, smaller index index) ∷ []) more
unfolding matches note_all
matches-hits ts d code index more h = ap (note_all []) h

module _ (strip lower : String → String) (definitions : List SiteDefinition) where
  -- A name that holds real codes is that site if they are one, and none at all if they are several:
  -- aliases have no say.
  pub parse-real_codes :
      (name code : String) (index : ℕ) (more : List (String × ℕ))
      → str_eq name "" ≡ false
      → hits (tokens_of strip lower definitions name) (codes_only [] definitions)
        ≡ (code, index) ∷ more
      → parse strip lower definitions (some name)
        ≡ (if all (λ h. str_eq h.0 code) more then some code else none)
  unfolding parse
  parse-real_codes name code index more filled h =
      let found =
        matches-hits (tokens_of strip lower definitions name) (codes_only [] definitions) code index
          more h in
      elim (Bool-cases (all (λ h. str_eq h.0 code) more)) [
        | inl one ↦
            let (j, e) = note_all-same code more (smaller index index) one in
            rw (filled, found, one, e) refl
        | inr several ↦
            rw (filled, found, several)
              (of_codes-HasTwo _ _ (note_all-other code more (smaller index index) several))
      ]

  abbrev IsCode : String → Type 0
  IsCode c = any (λ d. str_eq d.code c) definitions ≡ true

  parse-Holds : (name : Option String) → Holds IsCode (parse strip lower definitions name)
  unfolding parse
  parse-Holds none = tt
  parse-Holds (some name) = elim (Bool-cases (str_eq name "")) [
    | inl empty ↦ rw empty tt
    | inr filled ↦
        let ts = tokens_of strip lower definitions name in
        let named =
          matches-Sites IsCode ts (codes_only [] definitions)
            (codes_only-Values IsCode definitions [] (all_codes definitions) tt) in
        let aliased =
          matches-Sites IsCode ts (with_aliases [] definitions)
            (with_aliases-Values IsCode definitions [] (all_codes definitions) tt) in
        rw filled (of_codes-Holds IsCode _ _ named (of_aliases-Holds IsCode _ aliased))
  ]

  -- The site of a name is the code of a configured site, never an alias.
  pub parse-is_code :
      (name : Option String) (code : String)
      → parse strip lower definitions name ≡ some code
      → any (λ d. str_eq d.code code) definitions ≡ true
  parse-is_code name code h = subst (Holds IsCode) h (parse-Holds name)
