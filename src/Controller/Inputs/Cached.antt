-- ===== src/Controller/Inputs/Cached.antt =====
-- buildInputs: what its caches may hold, and steps that go the same way whatever they hold.
use mathlib.Core.Path.{subst, sym}
use kube_headroom.Prelude.{
  ◌≡◌, refl, ap, ◌∙◌, Bool, true, false, if◌then◌else◌, Option, none, some, List, [], String, inl,
  inr, Bool-cases,
}
use mathlib.Core.Option.{some-injective}
use Prim.Native.String.{◌++◌ as str_append}
use kube_headroom.Prelude.Text.{lookup, insert, lookup-insert, str_eq, str_eq-true}
use kube_headroom.Kube.{Quantity, GoMap, LimitRange, ResourceHelper, Selectors, HeadroomConfigSpec}
use kube_headroom.Controller.Inputs.{
  Reads, Judging, Result, gives, fails_with, and_then, or_fail, cached_ranges, read_namespace,
  cached_verdict,
}

-- The two caches of a call.
abbrev pub Caches : Type 0 → Type 0
Caches Q = GoMap Bool × GoMap (List (LimitRange Q))

module _ {Q : Type 0} where
  abbrev pub cleared : Judging Q → Judging Q
  cleared st = record st { ns_managed = []; ns_limit_ranges = [] }

  abbrev pub holding : Caches Q → Judging Q → Judging Q
  holding c st = record st { ns_managed = c.0; ns_limit_ranges = c.1 }

  abbrev pub caches : Judging Q → Caches Q
  caches st = (st.ns_managed, st.ns_limit_ranges)

module _ {Q S : Type 0} ⦃q : Quantity Q⦄ ⦃helper : ResourceHelper Q⦄ ⦃sel : Selectors S⦄
    (reads : Reads Q) (spec : HeadroomConfigSpec Q S) where
  -- The caches hold what a read would give.
  abbrev pub Consistent : Caches Q → Type 0
  Consistent c =
      ((ns : String) (v : Bool)
        → lookup ns c.0 ≡ some v
        → read_namespace ns (reads.get_namespace ns) spec ≡ gives v)
      × ((ns : String) (l : List (LimitRange Q))
          → lookup ns c.1 ≡ some l
          → reads.list_limit_ranges ns ≡ some l)

  -- A step's result and the state it leaves, the caches apart.
  pub record Like {A : Type 0} (r : Result A) (base : Judging Q) (m : Result A × Judging Q)
      : Type 0 where
    pub result : m.0 ≡ r
    pub state : cleared m.1 ≡ base
    pub consistent : Consistent (caches m.1)

  pub record Same {A : Type 0} (m m' : Result A × Judging Q) : Type 0 where
    pub result : m.0 ≡ m'.0
    pub state : cleared m.1 ≡ cleared m'.1
    pub left : Consistent (caches m.1)
    pub right : Consistent (caches m'.1)

  pub Same-Like :
      {A : Type 0} (r : Result A) (base : Judging Q) (m m' : Result A × Judging Q)
      → Like r base m
      → Like r base m'
      → Same m m'
  Same-Like r base m m' l l' = record {
    result = l.result ∙ sym l'.result;
    state = l.state ∙ sym l'.state;
    left = l.consistent;
    right = l'.consistent;
  }

  -- Two steps that do the same, whatever their caches hold.
  abbrev pub Alike :
      {A : Type 0}
      → (Judging Q → Result A × Judging Q)
      → (Judging Q → Result A × Judging Q)
      → Type 0
  Alike f g =
      (st : Judging Q) (c c' : Caches Q)
      → Consistent c
      → Consistent c'
      → Same (f (holding c st)) (g (holding c' st))

  -- A step that the caches change nothing of.
  abbrev pub Blind : {A : Type 0} → (Judging Q → Result A × Judging Q) → Type 0
  Blind f = Alike f f

  gives-injective : {A : Type 0} {a a' : A} → gives a ≡ gives a' → a ≡ a'
  gives-injective {A} {a} {a'} e = cc e

  pub Same-and_then :
      {A B : Type 0} (m m' : Result A × Judging Q) (f g : A → Judging Q → Result B × Judging Q)
      → Same m m'
      → ((a : A) → Alike (f a) (g a))
      → Same (and_then m f) (and_then m' g)
  Same-and_then (fails_with e, s) (fails_with e', s') f g h alike = record {
    result = cc h.result;
    state = h.state;
    left = h.left;
    right = h.right;
  }
  Same-and_then (fails_with e, s) (gives a, s') f g h alike = absurd (cc h.result)
  Same-and_then (gives a, s) (fails_with e, s') f g h alike = absurd (cc h.result)
  Same-and_then (gives a, s) (gives a', s') f g h alike =
      subst (λ (x : _). Same (f a s) (g x s')) (gives-injective h.result)
        (subst (λ (t : Judging Q). Same (f a s) (g a (holding (caches s') t))) h.state
          (alike a (cleared s) (caches s) (caches s') h.left h.right))

  pub Same-if :
      {A : Type 0} (b : Bool) (m n m' n' : Result A × Judging Q)
      → Same m m'
      → Same n n'
      → Same (if b then m else n) (if b then m' else n')
  Same-if true m n m' n' h k = h
  Same-if false m n m' n' h k = k

  Consistent-insert :
      (ns : String) (ok : Bool) (c : Caches Q)
      → read_namespace ns (reads.get_namespace ns) spec ≡ gives ok
      → Consistent c
      → Consistent (insert ns ok c.0, c.1)
  Consistent-insert ns ok c e (h, k) = (
    λ j v at. elim (Bool-cases (str_eq ns j)) [
      | inl same ↦
          let found : some ok ≡ some v = sym (lookup-insert ns j ok c.0 ∙ rw same refl) ∙ at in
          subst (λ (i : String). read_namespace i (reads.get_namespace i) spec ≡ gives v)
            (str_eq-true ns j same) (e ∙ ap gives (some-injective ok v found))
      | inr other ↦ h j v (sym (lookup-insert ns j ok c.0 ∙ rw other refl) ∙ at)
    ],
    k,
  )

  -- A namespace that has just been read.
  read-Like :
      (ns : String) (st : Judging Q) (r : Result Bool)
      → read_namespace ns (reads.get_namespace ns) spec ≡ r
      → Consistent (caches st)
      → Like r (cleared st) (
          and_then
            (r, st)
            (λ ok st'. (gives ok, record st' { ns_managed = insert ns ok st'.ns_managed })))
  read-Like ns st (fails_with e) read c = record { result = refl; state = refl; consistent = c }
  read-Like ns st (gives ok) read c = record {
    result = refl;
    state = refl;
    consistent = Consistent-insert ns ok (caches st) read c;
  }

  pub cached_verdict-Like :
      (ns : String) (st : Judging Q) (o : Option Bool)
      → lookup ns st.ns_managed ≡ o
      → Consistent (caches st)
      → Like
          (read_namespace ns (reads.get_namespace ns) spec)
          (cleared st)
          (cached_verdict reads spec ns o st)
  unfolding cached_verdict
  cached_verdict-Like ns st (some ok) at c = record {
    result = sym (c.0 ns ok at);
    state = refl;
    consistent = c;
  }
  cached_verdict-Like ns st none at c = read-Like ns st _ refl c

  Consistent-insert_ranges :
      (ns : String) (l : List (LimitRange Q)) (c : Caches Q)
      → reads.list_limit_ranges ns ≡ some l
      → Consistent c
      → Consistent (c.0, insert ns l c.1)
  Consistent-insert_ranges ns l c e (h, k) = (
    h,
    λ j v at. elim (Bool-cases (str_eq ns j)) [
      | inl same ↦
          let found : some l ≡ some v = sym (lookup-insert ns j l c.1 ∙ rw same refl) ∙ at in
          subst (λ (i : String). reads.list_limit_ranges i ≡ some v) (str_eq-true ns j same)
            (e ∙ found)
      | inr other ↦ k j v (sym (lookup-insert ns j l c.1 ∙ rw other refl) ∙ at)
    ],
  )

  abbrev ranges_of : String → Option (List (LimitRange Q)) → Result (List (LimitRange Q))
  ranges_of ns o = or_fail (str_append "list limitranges in " ns) o

  list-Like :
      (ns : String) (st : Judging Q) (o : Option (List (LimitRange Q)))
      → reads.list_limit_ranges ns ≡ o
      → Consistent (caches st)
      → Like (ranges_of ns o) (cleared st) (
          and_then
            (ranges_of ns o, st)
            (λ l st'. (gives l, record st' { ns_limit_ranges = insert ns l st'.ns_limit_ranges })))
  list-Like ns st none read c = record { result = refl; state = refl; consistent = c }
  list-Like ns st (some l) read c = record {
    result = refl;
    state = refl;
    consistent = Consistent-insert_ranges ns l (caches st) read c;
  }

  pub cached_ranges-Like :
      (ns : String) (st : Judging Q) (o : Option (List (LimitRange Q)))
      → lookup ns st.ns_limit_ranges ≡ o
      → Consistent (caches st)
      → Like (ranges_of ns (reads.list_limit_ranges ns)) (cleared st) (cached_ranges reads ns o st)
  unfolding cached_ranges
  cached_ranges-Like ns st (some l) at c = record {
    result = sym (ap (ranges_of ns) (c.1 ns l at));
    state = refl;
    consistent = c;
  }
  cached_ranges-Like ns st none at c = list-Like ns st _ refl c
