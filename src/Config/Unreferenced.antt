-- ===== src/Config/Unreferenced.antt =====
-- A secret that no config refers to is not needed (internal/core/secrets.go and
-- internal/store/sqlite/delete.go).
use duskrun.Base.{
  String, ◌≡◌, refl, ap, sym, ◌∙◌, Bool, true, false, ◌&&◌, ◌||◌, not, Option, none, some, List,
  str_eq, eq_iff, arith, Bool-cases, Option-cases, inl, inr,
}
use mathlib.Core.List
use duskrun.ArtifactKey.{trim_space}
use duskrun.Config.{
  Value, null, boolean, number, text, slice, dict, Elements, no_elements, element, Entries,
  no_entries, entry, lookup, has_field, text_in, cut_suffix, found, has_suffix, ref_suffix,
}
use duskrun.Config.Hidden.{or-false_right}
use duskrun.Config.Refs.{looked_up, ref_name, is_ref, names}
use duskrun.Config.Resolver.{
  Resolved, failed, ready, ◌>>=◌, Opener, current, visit_ref, visit_text, visit_overwritten, visit,
  resolve_fields, resolve_items, assign,
}

pub bind_congr {ℓ κ} :
    {A : Type ℓ} {B : Type κ} (m n : Resolved A) (f g : A → Resolved B)
    → m ≡ n
    → ((a : A) → n ≡ ready a → f a ≡ g a)
    → (m >>= f) ≡ (n >>= g)
bind_congr m n f g e h = ap (λ x. x >>= f) e ∙ go n h
  where
    go : (r : Resolved _) → ((a : _) → r ≡ ready a → f a ≡ g a) → (r >>= f) ≡ (r >>= g)
    go (failed s) k = refl
    go (ready a) k = k a refl

-- The base of a reference is not itself named like a reference.
abbrev pub PlainBase : Option String → Type 0
PlainBase none = Unit
PlainBase (some base) = has_suffix base ref_suffix ≡ false

-- No key ends in _ref twice.
abbrev mutual
  pub Single : Value → Type 0
  Single (slice xs) = SingleItems xs
  Single (dict fs) = SingleFields fs
  Single _ = Unit

  pub SingleItems : Elements → Type 0
  SingleItems no_elements = Unit
  SingleItems (element x xs) = Single x × SingleItems xs

  pub SingleFields : Entries → Type 0
  SingleFields no_entries = Unit
  SingleFields (entry k v fs) = PlainBase (cut_suffix ref_suffix k) × Single v × SingleFields fs

-- No assigned key is named like a reference.
abbrev pub Plain : Entries → Type 0
Plain no_entries = Unit
Plain (entry k v done) = (has_suffix k ref_suffix ≡ false) × Plain done

Plain-key :
    (k : String) (done : Entries)
    → Plain done
    → has_field k done ≡ true
    → has_suffix k ref_suffix ≡ false
Plain-key k no_entries p h = absurd (ground (arith, h))
Plain-key k (entry j v done) p h = elim (Bool-cases (str_eq j k)) [
  | inl e ↦ rw (sym ((eq_iff j k).0 e)) p.0
  | inr e ↦ Plain-key k done p.1 (simp e at h)
]

abbrev pub PlainResult {ℓ} : {A : Type ℓ} → Resolved (A × Entries × Bool) → Type 0
PlainResult (failed s) = Unit
PlainResult (ready x) = Plain x.1

abbrev pub PlainText : Resolved (Entries × Bool) → Type 0
PlainText (failed s) = Unit
PlainText (ready x) = Plain x.0

visit_ref-Plain :
    (opens : Opener) (all done : Entries) (s : String) (base : Option String)
    → PlainBase base
    → Plain done
    → PlainText (visit_ref opens all done s base)
visit_ref-Plain opens all done s none b p = p
visit_ref-Plain opens all done s (some base) b p =
    elim (Bool-cases (str_eq base "" || str_eq s "")) [
      | inl e ↦ rw e p
      | inr e ↦ elim (Bool-cases (str_eq (text_in (current all done base)) "")) [
        | inr f ↦ rw (e, f) p
        | inl f ↦ elim (Option-cases (opens s)) [
          | inl g ↦ rw (e, f, g) tt
          | inr (plain, g) ↦ rw (e, f, g) (b, p)
        ]
      ]
    ]

ready-Plain {ℓ} :
    {A : Type ℓ} (m : Resolved A) (done : Entries) (value : A → Value) (changed : A → Bool)
    → Plain done
    → PlainResult (m >>= λ x. ready (value x, done, changed x))
ready-Plain (failed s) done value changed p = tt
ready-Plain (ready x) done value changed p = p

text-Plain :
    (m : Resolved (Entries × Bool)) (v : Value)
    → PlainText m
    → PlainResult (m >>= λ x. ready (v, x.0, x.1))
text-Plain (failed s) v p = tt
text-Plain (ready x) v p = p

pub visit-Plain :
    (opens : Opener) (all done : Entries) (k : String) (v : Value)
    → PlainBase (cut_suffix ref_suffix k)
    → Plain done
    → PlainResult (visit opens all done k v)
unfolding visit visit_text
visit-Plain opens all done k null b p = p
visit-Plain opens all done k (boolean x) b p = p
visit-Plain opens all done k (number n) b p = p
visit-Plain opens all done k (text s) b p =
    text-Plain (visit_text opens all done k s) (text s)
      (visit_ref-Plain opens all done s (cut_suffix ref_suffix k) b p)
visit-Plain opens all done k (slice xs) b p =
    ready-Plain (resolve_items opens xs) done (λ x. slice x.0) (λ x. x.1) p
visit-Plain opens all done k (dict gs) b p =
    ready-Plain (resolve_fields opens gs no_entries gs) done (λ x. dict (assign x.1 x.0)) (λ x. x.2)
      p

pub overwritten-Plain :
    (opens : Opener) (all done : Entries) (k : String) (v : Value)
    → PlainBase (cut_suffix ref_suffix k)
    → Plain done
    → PlainResult (visit_overwritten opens all done k v)
unfolding visit_text
overwritten-Plain opens all done k v b p =
    text-Plain (visit_text opens all done k (text_in (lookup k done))) v
      (visit_ref-Plain opens all done (text_in (lookup k done)) (cut_suffix ref_suffix k) b p)

found_false : (o : Option String) → found o ≡ false → o ≡ none
found_false none h = refl
found_false (some s) h = cc

pub names-append :
    (xs ys : List String) (name : String)
    → names (List.◌++◌ xs ys) name ≡ (names xs name || names ys name)
names-append List.[] ys name = refl
names-append (List.◌∷◌ x xs) ys name = ground (arith, names-append xs ys name)

-- Two openers that differ at most at the references to one name.
module _ (opens opens' : Opener) (name : String)
    (agree : (s : String) → str_eq (looked_up s) name ≡ false → opens s ≡ opens' s)
    (trimmed : trim_space name ≡ name) where
  pub other_name :
      (s : String) → str_eq (ref_name s) name ≡ false → str_eq (looked_up s) name ≡ false
  unfolding ref_name
  other_name s h = elim (Bool-cases (str_eq (looked_up s) name)) [
    | inr e ↦ e
    | inl e ↦
        let same : looked_up s ≡ name = (eq_iff (looked_up s) name).0 e in
        let named : trim_space (looked_up s) ≡ name = ap trim_space same ∙ trimmed in
        absurd (ground (arith, h, (eq_iff (trim_space (looked_up s)) name).1 named))
  ]

  visit_ref-eq :
      (all done : Entries) (s : String) (base : Option String)
      → (found base && not (str_eq s "") ≡ true → str_eq (ref_name s) name ≡ false)
      → visit_ref opens all done s base ≡ visit_ref opens' all done s base
  visit_ref-eq all done s none h = refl
  visit_ref-eq all done s (some base) h = elim (Bool-cases (str_eq base "" || str_eq s "")) [
    | inl e ↦ rw e refl
    | inr e ↦
        let some_text : not (str_eq s "") ≡ true = ap not (or-false_right (str_eq base "") _ e) in
        rw (agree s (other_name s (h some_text))) refl
  ]

  pub visit_text-eq :
      (all done : Entries) (k s : String)
      → (is_ref k s ≡ true → str_eq (ref_name s) name ≡ false)
      → visit_text opens all done k s ≡ visit_text opens' all done k s
  unfolding visit_text
  visit_text-eq all done k s h = visit_ref-eq all done s (cut_suffix ref_suffix k) h

  pub overwritten-eq :
      (all done : Entries) (k : String) (v : Value)
      → Plain done
      → has_field k done ≡ true
      → visit_overwritten opens all done k v ≡ visit_overwritten opens' all done k v
  unfolding visit_text
  overwritten-eq all done k v p h =
      let plain : cut_suffix ref_suffix k ≡ none = found_false _ (Plain-key k done p h) in
      rw plain refl
