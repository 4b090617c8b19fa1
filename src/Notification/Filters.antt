-- ===== src/Notification/Filters.antt =====
-- bucket-notification.go: the rules of a filter after `AddFilterPrefix` and `AddFilterSuffix`.
use mefs_sdk_go.Prelude.{
  sym, ap, subst, ◌∙◌, ℕ, length, ◌≤◌, Option, none, some, ◌≡◌, ◌≢◌, refl, List, [], ◌∷◌, arith,
  false, if◌then◌else◌, Bool-cases, inl, inr,
}
use mefs_sdk_go.Prelude.Text.{Text, text_eq, text_eq_refl, text_eq→eq, codes}
use mefs_sdk_go.Notification.Config.{
  FilterRule, Filter, empty_filter, Store, Arn, new_notification_config, NotificationConfig,
  write_filter, new_filter, set_rule, filter_of, add_filter_rule, add_filter_suffix,
  add_filter_prefix,
}

-- the values of the rules of a name
abbrev pub values : Text → List FilterRule → List Text
values name [] = []
values name (r ∷ rules) =
    if text_eq r.name name then r.value ∷ values name rules else values name rules

values-set_rule_other :
    (new : FilterRule) (rules : List FilterRule) (name : Text)
    → text_eq new.name name ≡ false
    → values name (set_rule new rules) ≡ values name rules
unfolding set_rule
values-set_rule_other new [] name n = rw n refl
values-set_rule_other new (r ∷ rules) name n = elim (Bool-cases (text_eq r.name new.name)) [
  | inl e ↦ rw (e, n, text_eq→eq r.name new.name e, n) refl
  | inr f ↦ rw (f, values-set_rule_other new rules name n) refl
]

length_zero : {A : Type 0} (l : List A) → length l ≤ 0 → l ≡ []
length_zero [] h = refl
length_zero (x ∷ l) h = absurd (omega arith)

values-set_rule_same :
    (new : FilterRule) (rules : List FilterRule)
    → length (values new.name rules) ≤ 1
    → values new.name (set_rule new rules) ≡ new.value ∷ []
unfolding set_rule
values-set_rule_same new [] h = rw text_eq_refl refl
values-set_rule_same new (r ∷ rules) h = elim (Bool-cases (text_eq r.name new.name)) [
  | inl e ↦
      let none_left : values new.name rules ≡ [] = length_zero _ (ground arith) in
      rw (e, text_eq_refl, none_left) refl
  | inr f ↦ rw (f, f) (values-set_rule_same new rules (ground arith))
]

-- A call that sets the rule of a filter.
pub data FilterCall : Type 0 where
  add_suffix add_prefix : Text → FilterCall

unfoldable pub perform_call : FilterCall → Store × NotificationConfig → Store × NotificationConfig
unfolding add_filter_suffix add_filter_prefix
perform_call (add_suffix s) (store, t) = add_filter_suffix s store t
perform_call (add_prefix p) (store, t) = add_filter_prefix p store t

unfoldable pub perform_calls :
    List FilterCall → Store × NotificationConfig → Store × NotificationConfig
unfolding perform_call
perform_calls [] st = st
perform_calls (c ∷ calls) st = perform_calls calls (perform_call c st)

-- What a filter is to select: the last suffix and the last prefix that were given.
pub record Selection : Type 0 where
  pub suffix : Option Text
  pub prefix : Option Text

abbrev pub select : Selection → FilterCall → Selection
select w (add_suffix s) = record w { suffix = some s }
select w (add_prefix p) = record w { prefix = some p }

abbrev pub select_all : Selection → List FilterCall → Selection
select_all w [] = w
select_all w (c ∷ calls) = select_all (select w c) calls

abbrev pub as_list : Option Text → List Text
as_list none = []
as_list (some s) = s ∷ []

-- The values that the rules of a name may have.
abbrev pub selected : Selection → Text → List Text
selected w name =
    if text_eq (codes "suffix") name
    then as_list w.suffix
    else if text_eq (codes "prefix") name
    then as_list w.prefix
    else []

abbrev pub Represents : Selection → List FilterRule → Type 0
Represents w rules = (name : Text) → values name rules ≡ selected w name

abbrev rule_of : FilterCall → FilterRule
rule_of (add_suffix s) = record { name = codes "suffix"; value = s }
rule_of (add_prefix p) = record { name = codes "prefix"; value = p }

select-other :
    (w : Selection) (c : FilterCall) (name : Text)
    → text_eq (rule_of c).name name ≡ false
    → selected (select w c) name ≡ selected w name
select-other w (add_suffix s) name n = rw n refl
select-other w (add_prefix p) name n = elim (Bool-cases (text_eq (codes "suffix") name)) [
  | inl e ↦ rw e refl
  | inr f ↦ rw (f, n) refl
]

select-same :
    (w : Selection) (c : FilterCall)
    → selected (select w c) (rule_of c).name ≡ (rule_of c).value ∷ []
unfolding text_eq
select-same w (add_suffix s) = refl
select-same w (add_prefix p) = refl

length-as_list : (o : Option Text) → length (as_list o) ≤ 1
length-as_list none = omega arith
length-as_list (some s) = omega arith

length-selected : (w : Selection) (name : Text) → length (selected w name) ≤ 1
length-selected w name = ground (arith, length-as_list w.suffix, length-as_list w.prefix)

set_rule-Represents :
    (w : Selection) (rules : List FilterRule) (c : FilterCall)
    → Represents w rules
    → Represents (select w c) (set_rule (rule_of c) rules)
set_rule-Represents w rules c h name = elim (Bool-cases (text_eq (rule_of c).name name)) [
  | inl e ↦
      let short : length (values (rule_of c).name rules) ≤ 1 = rw h (length-selected w _) in
      rw (← text_eq→eq _ name e)
        (values-set_rule_same (rule_of c) rules short ∙ sym (select-same w c))
  | inr n ↦ values-set_rule_other (rule_of c) rules name n ∙ h name ∙ sym (select-other w c name n)
]

abbrev rules_at : Store → ℕ → List FilterRule
rules_at store a = (store.filter_at a).s3_key.filter_rules

-- The filter at the address `a` holds the rules, and the others are those of the store `old`.
abbrev pub Holds : Selection → Store → ℕ → Store × NotificationConfig → Type 0
Holds w old a (store, t) =
    (t.filter ≡ some a)
    × Represents w (rules_at store a)
    × ((b : ℕ) → b ≢ a → store.filter_at b ≡ old.filter_at b)

abbrev with_rules : List FilterRule → Filter
with_rules rules = record { s3_key = record { filter_rules = rules } }

add_filter_rule_at :
    (a : ℕ) (store : Store) (t : NotificationConfig) (r : FilterRule)
    → t.filter ≡ some a
    → add_filter_rule r store t ≡ (
      write_filter store a (with_rules (set_rule r (rules_at store a))),
      record t { filter = some a },
    )
unfolding add_filter_rule filter_of
add_filter_rule_at a store t r here = rw here refl

write_filter-here : (store : Store) (a : ℕ) (f : Filter) → (write_filter store a f).filter_at a ≡ f
unfolding write_filter
write_filter-here store a f = ground arith

write_filter-other :
    (store : Store) (a b : ℕ) (f : Filter)
    → b ≢ a
    → (write_filter store a f).filter_at b ≡ store.filter_at b
unfolding write_filter
write_filter-other store a b f n = ground arith

add_filter_rule-Holds :
    (w : Selection) (old : Store) (a : ℕ) (store : Store) (t : NotificationConfig) (c : FilterCall)
    → Holds w old a (store, t)
    → Holds (select w c) old a (add_filter_rule (rule_of c) store t)
add_filter_rule-Holds w old a store t c (here, rules, others) =
    let filled = set_rule (rule_of c) (rules_at store a) in
    let held = ap (λ f. f.s3_key.filter_rules) (write_filter-here store a (with_rules filled)) in
    subst (Holds (select w c) old a) (sym (add_filter_rule_at a store t (rule_of c) here)) (
      refl,
      λ name. ap (values name) held ∙ set_rule-Represents w (rules_at store a) c rules name,
      λ b n. write_filter-other store a b (with_rules filled) n ∙ others b n,
    )

perform_call-Holds :
    (w : Selection) (old : Store) (a : ℕ) (st : Store × NotificationConfig) (c : FilterCall)
    → Holds w old a st
    → Holds (select w c) old a (perform_call c st)
unfolding perform_call add_filter_suffix add_filter_prefix
perform_call-Holds w old a (store, t) (add_suffix s) h =
    add_filter_rule-Holds w old a store t (add_suffix s) h
perform_call-Holds w old a (store, t) (add_prefix p) h =
    add_filter_rule-Holds w old a store t (add_prefix p) h

perform_calls-Holds :
    (w : Selection) (old : Store) (a : ℕ) (calls : List FilterCall)
    (st : Store × NotificationConfig)
    → Holds w old a st
    → Holds (select_all w calls) old a (perform_calls calls st)
unfolding perform_calls
perform_calls-Holds w old a [] st h = h
perform_calls-Holds w old a (c ∷ calls) st h =
    perform_calls-Holds (select w c) old a calls _ (perform_call-Holds w old a st c h)

abbrev pub nothing_selected : Selection
nothing_selected = record { suffix = none; prefix = none }

nothing_held :
    (store : Store) (name : Text)
    → values name (rules_at (write_filter store store.next empty_filter) store.next)
      ≡ selected nothing_selected name
nothing_held store name =
    ap (λ f. values name f.s3_key.filter_rules) (write_filter-here store store.next empty_filter)
    ∙ ground arith

-- After any calls of `AddFilterSuffix` and `AddFilterPrefix` on a new config, its pointer is the one it
-- was made with, the rules of its filter are one suffix rule with the last suffix that was given, if
-- any, one prefix rule with the last prefix, if any, and no others, and the filters of all other
-- addresses are unchanged.
pub perform_calls-new_notification_config :
    (calls : List FilterCall) (store : Store) (arn : Arn)
    → Holds
        (select_all nothing_selected calls)
        store
        store.next
        (perform_calls calls (new_notification_config store arn))
unfolding new_notification_config new_filter
perform_calls-new_notification_config calls store arn =
    perform_calls-Holds nothing_selected store store.next calls _ (
      refl,
      λ name. nothing_held store name,
      λ b n. write_filter-other store store.next b empty_filter n,
    )
