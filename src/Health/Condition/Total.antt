-- ===== src/Health/Condition/Total.antt =====
-- When the evaluation of a checked condition raises nothing, and why the check does not suffice.
use server_scan.Prelude.{
  ℤ, String, Bool, true, false, Option, none, some, is_some, List, [], ◌∷◌, ◌≡◌, refl, subst, arith,
  all, All, Bool-cases, inl, inr, str_eq,
}
use server_scan.Health.Values.{
  Value, Scalar, null, scalar, list, int, bool, str, raised, Error, type_error, ◌>>=◌, as_int,
  elements, order_values, is_in,
}
use server_scan.Health.Values.Laws.{NeverRaises, bind-Raises}
use server_scan.Health.Metrics.{
  MetricType, int_type, float_type, string_type, bool_type, enum_type, list_string, list_int,
  MetricDef, MetricRegistry, Facts, get, find_metric, Operator, operator_of, allows, is_number_type,
  is_list_type, eq, ne, gt, gte, lt, lte, in_list, not_in, exists, not_exists, any_of, all_of,
  count_eq, count_gt, count_gte, count_lt, count_lte,
}
use server_scan.Health.Condition.{
  Condition, leaf, valid, validate_condition, validate_leaf, validate_operator, check_size,
}
use server_scan.Health.Condition.Evaluate.{
  evaluate_condition, evaluate_leaf, evaluate_metric, apply_operator, apply_known, eval_scalar,
  count_elements,
}
use server_scan.Health.Condition.Safety.{IsScalar}
use server_scan.Health.Condition.Leaves.{
  OnLeaf, AllLeaves, AllLeaves-zip, IsValidLeaf, valid-AllLeaves, LeafRaises, evaluate-Raises,
}

abbrev pub is_str : Scalar → Bool
is_str (str s) = true
is_str _ = false

abbrev is_number : Scalar → Bool
is_number x = is_some (as_int x)

-- A value has the shape that the type of its metric promises; a boolean is a number too.
abbrev pub has_type : MetricType → Value → Bool
has_type int_type (scalar x) = is_number x
has_type float_type (scalar x) = is_number x
has_type string_type (scalar x) = is_str x
has_type bool_type (scalar (bool b)) = true
has_type enum_type (scalar x) = is_str x
has_type list_string (list xs) = all is_str xs
has_type list_int (list xs) = all is_number xs
has_type _ _ = false

-- What the check at write time does not look at: an ordering compares with a number, and `IN` and
-- `NOT_IN` look into a list.
abbrev pub fits : Operator → Value → Bool
fits gt (scalar x) = is_number x
fits gte (scalar x) = is_number x
fits lt (scalar x) = is_number x
fits lte (scalar x) = is_number x
fits count_gt (scalar x) = is_number x
fits count_gte (scalar x) = is_number x
fits count_lt (scalar x) = is_number x
fits count_lte (scalar x) = is_number x
fits in_list (list xs) = true
fits not_in (list xs) = true
fits eq v = true
fits ne v = true
fits exists v = true
fits not_exists v = true
fits any_of v = true
fits all_of v = true
fits count_eq v = true
fits _ _ = false

-- The operators that compare by an order.
abbrev orders : Operator → Bool
orders gt = true
orders gte = true
orders lt = true
orders lte = true
orders count_gt = true
orders count_gte = true
orders count_lt = true
orders count_lte = true
orders _ = false

abbrev IsNever : Error → Type 0
IsNever e = ⊥

number_order :
    (x y : Scalar)
    → is_number x ≡ true
    → is_number y ≡ true
    → NeverRaises (order_values (scalar x) (scalar y))
unfolding order_values
number_order (int m) (int n) h k = tt
number_order (int m) (bool true) h k = tt
number_order (int m) (bool false) h k = tt
number_order (bool true) (int n) h k = tt
number_order (bool false) (int n) h k = tt
number_order (bool true) (bool true) h k = tt
number_order (bool true) (bool false) h k = tt
number_order (bool false) (bool true) h k = tt
number_order (bool false) (bool false) h k = tt
number_order (str s) y h k = cc
number_order (int m) (str s) h k = cc
number_order (bool b) (str s) h k = cc

abbrev IsNumber : Value → Type 0
IsNumber v = (x : Scalar) × (v ≡ scalar x) × (is_number x ≡ true)

abbrev IsList : Value → Type 0
IsList v = (xs : List Scalar) × (v ≡ list xs)

IsNumber-shape :
    (type : MetricType) (v : Value)
    → is_number_type type ≡ true
    → has_type type v ≡ true
    → IsNumber v
IsNumber-shape int_type (scalar x) t h = (x, refl, h)
IsNumber-shape float_type (scalar x) t h = (x, refl, h)
IsNumber-shape type v t h = absurd (ground arith)

IsList-shape :
    (type : MetricType) (v : Value) → is_list_type type ≡ true → has_type type v ≡ true → IsList v
IsList-shape list_string (list xs) t h = (xs, refl)
IsList-shape list_int (list xs) t h = (xs, refl)
IsList-shape type v t h = absurd (ground arith)

fits-IsNumber : (op : Operator) (v : Value) → orders op ≡ true → fits op v ≡ true → IsNumber v
fits-IsNumber op (scalar x) t h = (x, refl, ground arith)
fits-IsNumber op v t h = absurd (ground arith)

numbers-NeverRaise : (v w : Value) → IsNumber v → IsNumber w → NeverRaises (order_values v w)
numbers-NeverRaise v w (x, e, h) (y, f, k) = rw (e, f) (number_order x y h k)

set-NeverRaises : (v w : Value) → fits in_list w ≡ true → NeverRaises (is_in v w)
unfolding is_in
set-NeverRaises v (list xs) f = tt
set-NeverRaises v w f = cc

any-NeverRaises : (v w : Value) → IsList v → NeverRaises (is_in w v)
unfolding is_in
any-NeverRaises v w (xs, e) = rw e tt

-- An order between numbers is decided.
ordering-NeverRaises :
    (op : Operator) (v w : Value)
    → IsScalar op
    → IsNumber v
    → IsNumber w
    → NeverRaises (eval_scalar op v w)
unfolding eval_scalar
ordering-NeverRaises eq v w s h k = tt
ordering-NeverRaises ne v w s h k = tt
ordering-NeverRaises gt v w s h k = bind-Raises IsNever _ _ (numbers-NeverRaise v w h k) (λ o. tt)
ordering-NeverRaises gte v w s h k = bind-Raises IsNever _ _ (numbers-NeverRaise v w h k) (λ o. tt)
ordering-NeverRaises lt v w s h k = bind-Raises IsNever _ _ (numbers-NeverRaise v w h k) (λ o. tt)
ordering-NeverRaises lte v w s h k = bind-Raises IsNever _ _ (numbers-NeverRaise v w h k) (λ o. tt)
ordering-NeverRaises _ v w s h k = absurd s

elements-NeverRaises : (v : Value) → IsList v → NeverRaises (elements v)
unfolding elements
elements-NeverRaises v (xs, e) = rw e tt

count-NeverRaises :
    (op : Operator) (actual value equals : Value)
    → IsScalar op
    → IsList actual
    → ((n : Value) → IsNumber n → NeverRaises (eval_scalar op n value))
    → NeverRaises (count_elements actual equals >>= λ n. eval_scalar op n value)
unfolding count_elements elements
count-NeverRaises op actual value equals s (xs, e) h = rw e (h _ (_, refl, refl))

apply_operator-NeverRaises :
    (op : Operator) (type : MetricType) (actual value equals : Value)
    → allows op type ≡ true
    → has_type type actual ≡ true
    → fits op value ≡ true
    → NeverRaises (apply_operator op actual value equals)
unfolding apply_operator allows
apply_operator-NeverRaises exists t v w e a h f = tt
apply_operator-NeverRaises not_exists t v w e a h f = tt
apply_operator-NeverRaises in_list t v w e a h f = set-NeverRaises v w f
apply_operator-NeverRaises not_in t v w e a h f =
    bind-Raises IsNever _ _ (set-NeverRaises v w f) (λ b. tt)
apply_operator-NeverRaises any_of t v w e a h f = any-NeverRaises v w (IsList-shape t v a h)
apply_operator-NeverRaises all_of t v w e a h f =
    bind-Raises IsNever _ _ (elements-NeverRaises v (IsList-shape t v a h)) (λ xs. tt)
apply_operator-NeverRaises count_eq t v w e a h f =
    count-NeverRaises eq v w e tt (IsList-shape t v a h) (λ n k. unfold eval_scalar in tt)
apply_operator-NeverRaises count_gt t v w e a h f =
    count-NeverRaises gt v w e tt (IsList-shape t v a h)
      (λ n k. ordering-NeverRaises gt n w tt k (fits-IsNumber count_gt w refl f))
apply_operator-NeverRaises count_gte t v w e a h f =
    count-NeverRaises gte v w e tt (IsList-shape t v a h)
      (λ n k. ordering-NeverRaises gte n w tt k (fits-IsNumber count_gte w refl f))
apply_operator-NeverRaises count_lt t v w e a h f =
    count-NeverRaises lt v w e tt (IsList-shape t v a h)
      (λ n k. ordering-NeverRaises lt n w tt k (fits-IsNumber count_lt w refl f))
apply_operator-NeverRaises count_lte t v w e a h f =
    count-NeverRaises lte v w e tt (IsList-shape t v a h)
      (λ n k. ordering-NeverRaises lte n w tt k (fits-IsNumber count_lte w refl f))
apply_operator-NeverRaises eq t v w e a h f = tt
apply_operator-NeverRaises ne t v w e a h f = tt
apply_operator-NeverRaises gt t v w e a h f =
    ordering-NeverRaises gt v w tt (IsNumber-shape t v a h) (fits-IsNumber gt w refl f)
apply_operator-NeverRaises gte t v w e a h f =
    ordering-NeverRaises gte v w tt (IsNumber-shape t v a h) (fits-IsNumber gte w refl f)
apply_operator-NeverRaises lt t v w e a h f =
    ordering-NeverRaises lt v w tt (IsNumber-shape t v a h) (fits-IsNumber lt w refl f)
apply_operator-NeverRaises lte t v w e a h f =
    ordering-NeverRaises lte v w tt (IsNumber-shape t v a h) (fits-IsNumber lte w refl f)

-- Every metric of the registry reads a value of its type out of the facts.
abbrev pub Conforms : MetricRegistry → Facts → Type 0
Conforms registry facts = All (λ m. has_type m.type (m.resolver facts) ≡ true) registry.metrics

abbrev fits_known : Option Operator → Value → Bool
fits_known none v = true
fits_known (some op) v = fits op v

-- The leaf compares with a value that its operator can use.
abbrev pub FitsLeaf : OnLeaf
FitsLeaf m o v e = fits_known (operator_of o) v ≡ true

some_inj {ℓ} : {A : Type ℓ} {a b : A} → some a ≡ some b → a ≡ b
some_inj h = cc

found-typed :
    (name : String) (facts : Facts) (ms : List MetricDef) (m : MetricDef)
    → All (λ m. has_type m.type (m.resolver facts) ≡ true) ms
    → find_metric name ms ≡ some m
    → has_type m.type (m.resolver facts) ≡ true
found-typed name facts [] m h e = cc
found-typed name facts (m' ∷ ms) m (p, h) e = elim (Bool-cases (str_eq m'.name name)) [
  | inl same ↦ subst (λ q. has_type q.type (q.resolver facts) ≡ true) (some_inj (rw same at e)) p
  | inr other ↦ found-typed name facts ms m h (rw other at e)
]

known-NeverRaises :
    (metric : MetricDef) (op : Option Operator) (facts : Facts) (value equals : Value)
    → validate_operator metric value op ≡ valid
    → fits_known op value ≡ true
    → has_type metric.type (metric.resolver facts) ≡ true
    → NeverRaises (apply_known op (metric.resolver facts) value equals)
unfolding validate_operator
known-NeverRaises metric none facts value equals h f t = cc
known-NeverRaises metric (some op) facts value equals h f t =
    apply_operator-NeverRaises op metric.type (metric.resolver facts) value equals (ground arith) t
      f

metric-NeverRaises :
    (facts : Facts) (operator : String) (value equals : Value) (metric : Option MetricDef)
    → ((m : MetricDef) → metric ≡ some m → has_type m.type (m.resolver facts) ≡ true)
    → validate_leaf operator value metric ≡ valid
    → fits_known (operator_of operator) value ≡ true
    → NeverRaises (evaluate_metric facts operator value equals metric)
unfolding validate_leaf evaluate_metric
metric-NeverRaises facts operator value equals none t h f = cc
metric-NeverRaises facts operator value equals (some metric) t h f =
    known-NeverRaises metric (operator_of operator) facts value equals h f (t metric refl)

module _ (registry : MetricRegistry) (facts : Facts) (conforms : Conforms registry facts) where
  leaf-NeverRaises :
      (m o : String) (v e : Value)
      → IsValidLeaf registry m o v e
      → FitsLeaf m o v e
      → LeafRaises registry facts IsNever m o v e
  unfolding evaluate_leaf get
  leaf-NeverRaises m o v e h f =
      metric-NeverRaises facts o v e (find_metric m registry.metrics)
        (λ d found. found-typed m facts registry.metrics d conforms found) h f

  -- On facts that conform to the registry, a checked condition whose leaves compare with values
  -- that their operators can use evaluates without an exception.
  pub validated-NeverRaises :
      (c : Condition)
      → validate_condition registry c ≡ valid
      → AllLeaves FitsLeaf c
      → NeverRaises (evaluate_condition registry facts c)
  validated-NeverRaises c h f =
      evaluate-Raises registry facts IsNever c
        (AllLeaves-zip leaf-NeverRaises c (valid-AllLeaves registry c h) f)

in_int : (v : Value) (n : ℤ) → is_in v (scalar (int n)) ≡ raised type_error
unfolding is_in
in_int null n = refl
in_int (scalar (int m)) n = refl
in_int (scalar (bool b)) n = refl
in_int (scalar (str s)) n = refl
in_int (list xs) n = refl

-- For every metric of type INT, the check accepts `IN` with an integer in place of the list, and
-- the evaluation then raises `TypeError`, whatever the facts.
pub in_without_list :
    (registry : MetricRegistry) (facts : Facts) (name : String) (n : ℤ) {m : MetricDef}
    → get registry name ≡ some m
    → m.type ≡ int_type
    → (validate_condition registry (leaf name "IN" (scalar (int n)) null) ≡ valid)
      × (evaluate_condition registry facts (leaf name "IN" (scalar (int n)) null)
          ≡ raised type_error)
unfolding validate_condition validate_leaf validate_operator operator_of check_size
    evaluate_condition evaluate_leaf evaluate_metric apply_operator allows is_in
in_without_list registry facts name n {m} h t = (rw (h, t) refl, rw h (in_int (m.resolver facts) n))
