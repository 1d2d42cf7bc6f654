-- ===== src/Config/Agreement.antt =====
-- Two openers that differ only at the references to one name resolve alike what does not refer to it
-- (internal/core/secrets.go).
use duskrun.Base.{
  String, ◌≡◌, refl, ap, sym, ◌∙◌, true, false, ◌||◌, List, str_eq, if◌then◌else◌, Bool-cases, inl,
  inr, subst, if-keeps,
}
use mathlib.Core.List
use duskrun.ArtifactKey.{trim_space}
use duskrun.Config.{
  Value, null, boolean, number, text, slice, dict, Elements, no_elements, element, Entries,
  no_entries, entry, has_field,
}
use duskrun.Config.Hidden.{or-false_left, or-false_right}
use duskrun.Config.Refs.{
  looked_up, is_ref, ref_name, collect_refs, collect_items, collect_fields, names,
}
use duskrun.Config.Resolver.{
  ready, ◌>>=◌, Opener, assign, visit_overwritten, visit, resolve_fields, visit_item, resolve_items,
}
use duskrun.Config.Unreferenced.{
  bind_congr, Single, SingleItems, SingleFields, Plain, PlainResult, visit-Plain, overwritten-Plain,
  names-append, visit_text-eq, overwritten-eq,
}

names_left :
    (xs ys : List String) (name : String)
    → names (List.◌++◌ xs ys) name ≡ false
    → names xs name ≡ false
names_left xs ys name h =
    or-false_left (names xs name) (names ys name) (sym (names-append xs ys name) ∙ h)

names_right :
    (xs ys : List String) (name : String)
    → names (List.◌++◌ xs ys) name ≡ false
    → names ys name ≡ false
names_right xs ys name h =
    or-false_right (names xs name) (names ys name) (sym (names-append xs ys name) ∙ h)

-- The references of the first field, and those of the others.
names_field :
    (k : String) (v : Value) (fs : Entries) (name : String)
    → names (collect_fields (entry k v fs)) name ≡ false
    → names (collect_fields fs) name ≡ false
unfolding collect_refs
names_field k null fs name h = h
names_field k (boolean b) fs name h = h
names_field k (number n) fs name h = h
names_field k (text s) fs name h = elim (Bool-cases (is_ref k s)) [
  | inl e ↦ or-false_right (str_eq (ref_name s) name) _ (simp e at h)
  | inr e ↦ simp e at h
]
names_field k (slice xs) fs name h = names_right (collect_items xs) (collect_fields fs) name h
names_field k (dict gs) fs name h = names_right (collect_fields gs) (collect_fields fs) name h

names_text :
    (k s : String) (fs : Entries) (name : String)
    → names (collect_fields (entry k (text s) fs)) name ≡ false
    → is_ref k s ≡ true
    → str_eq (ref_name s) name ≡ false
unfolding collect_refs
names_text k s fs name h e =
    or-false_left (str_eq (ref_name s) name) (names (collect_fields fs) name) (simp e at h)

module _ (opens opens' : Opener) (name : String)
    (agree : (s : String) → str_eq (looked_up s) name ≡ false → opens s ≡ opens' s)
    (trimmed : trim_space name ≡ name) where
  mutual
    unfolding visit collect_refs

    visit-eq :
        (all done : Entries) (k : String) (v : Value) (fs : Entries)
        → Single v
        → names (collect_fields (entry k v fs)) name ≡ false
        → visit opens all done k v ≡ visit opens' all done k v
    visit-eq all done k null fs u h = refl
    visit-eq all done k (boolean b) fs u h = refl
    visit-eq all done k (number n) fs u h = refl
    visit-eq all done k (text s) fs u h =
        ap (λ m. m >>= λ x. ready (text s, x.0, x.1))
          (visit_text-eq opens opens' name agree trimmed all done k s (names_text k s fs name h))
    visit-eq all done k (slice xs) fs u h =
        ap (λ m. m >>= λ x. ready (slice x.0, done, x.1))
          (resolve_items-eq xs u (names_left (collect_items xs) (collect_fields fs) name h))
    visit-eq all done k (dict gs) fs u h =
        ap (λ m. m >>= λ x. ready (dict (assign x.1 x.0), done, x.2))
          (resolve_fields-eq gs no_entries gs u tt
            (names_left (collect_fields gs) (collect_fields fs) name h))

    pub resolve_fields-eq :
        (all done fs : Entries)
        → SingleFields fs
        → Plain done
        → names (collect_fields fs) name ≡ false
        → resolve_fields opens all done fs ≡ resolve_fields opens' all done fs
    resolve_fields-eq all done no_entries u p h = refl
    resolve_fields-eq all done (entry k v fs) u p h =
        let step = λ (o : Opener).
          if has_field k done then visit_overwritten o all done k v else visit o all done k v in
        let same : step opens ≡ step opens' = elim (Bool-cases (has_field k done)) [
          | inl e ↦ rw e (overwritten-eq opens opens' name agree trimmed all done k v p e)
          | inr e ↦ rw e (visit-eq all done k v fs u.1 h)
        ] in
        let plain : PlainResult (step opens') =
          if-keeps PlainResult (has_field k done) (overwritten-Plain opens' all done k v u.0 p)
            (visit-Plain opens' all done k v u.0 p) in
        bind_congr (step opens) (step opens')
          (λ x. resolve_fields opens all x.1 fs >>= λ y. ready (entry k x.0 y.0, y.1, x.2 || y.2))
          (λ x. resolve_fields opens' all x.1 fs >>= λ y. ready (entry k x.0 y.0, y.1, x.2 || y.2))
          same
          (λ x e.
            ap (λ r. r >>= λ y. ready (entry k x.0 y.0, y.1, x.2 || y.2))
              (resolve_fields-eq all x.1 fs u.2 (subst PlainResult e plain)
                (names_field k v fs name h)))

    visit_item-eq :
        (v : Value)
        → Single v
        → names (collect_refs v) name ≡ false
        → visit_item opens v ≡ visit_item opens' v
    visit_item-eq null u h = refl
    visit_item-eq (boolean b) u h = refl
    visit_item-eq (number n) u h = refl
    visit_item-eq (text s) u h = refl
    visit_item-eq (slice xs) u h =
        ap (λ m. m >>= λ x. ready (slice x.0, x.1)) (resolve_items-eq xs u h)
    visit_item-eq (dict gs) u h =
        ap (λ m. m >>= λ x. ready (dict (assign x.1 x.0), x.2))
          (resolve_fields-eq gs no_entries gs u tt h)

    resolve_items-eq :
        (xs : Elements)
        → SingleItems xs
        → names (collect_items xs) name ≡ false
        → resolve_items opens xs ≡ resolve_items opens' xs
    resolve_items-eq no_elements u h = refl
    resolve_items-eq (element x xs) u h =
        rw
          (
            visit_item-eq x u.0 (names_left (collect_refs x) (collect_items xs) name h),
            resolve_items-eq xs u.1 (names_right (collect_refs x) (collect_items xs) name h),
          )
          refl
