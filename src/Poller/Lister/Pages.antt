-- ===== src/Poller/Lister/Pages.antt =====
-- list: the pages that it reads and the items that it groups.
use mathlib.Core.Option.{some-injective}
use mathlib.Core.Path.{subst, sym}
use kube_headroom.Prelude.{
  ℕ, zero, suc, ◌≤◌, ◌≡◌, refl, ap, ◌∙◌, Bool, true, false, ◌&&◌, ◌⊎◌, inl, inr, if◌then◌else◌,
  Option, none, some, List, [], ◌∷◌, ◌++◌, String, length, arith,
}
use kube_headroom.Prelude.Text.{lookup, lookup-insert, str_eq, str_eq-true}
use kube_headroom.Kube.{GoMap}
use kube_headroom.Eligibility.Vpa.{Vpa}
use kube_headroom.Poller.{Poller, refresh, for_namespace}
use kube_headroom.Poller.Lister.{
  VpaSpec, Item, Page, ListError, no_match, not_found, refused, other, Answer, page, error, vpa_of,
  vpas_at, add_vpa, parse_item, parse, Outcome, whole, broken, after_page, on_answer, list_from,
  list, listing,
}

-- The pages that the API server gives from a token on, and the error that ends them, if one does.
pub data Pages (reader : String → Answer) : String → List Page → Option ListError → Type 0 where
  last :
      {token : String} {p : Page}
      → reader token ≡ page p
      → str_eq p.continue_token "" ≡ true
      → Pages reader token (p ∷ []) none
  more :
      {token : String} {p : Page} {ps : List Page} {end : Option ListError}
      → reader token ≡ page p
      → str_eq p.continue_token "" ≡ false
      → Pages reader p.continue_token ps end
      → Pages reader token (p ∷ ps) end
  stops : {token : String} {e : ListError} → reader token ≡ error e → Pages reader token [] (some e)

abbrev pub items_of : List Page → List Item
items_of [] = []
items_of (p ∷ ps) = p.items ++ items_of ps

-- What list makes of all items, parsed in order, and of the end of the pages.
abbrev pub outcome_of : Option ListError → Option (GoMap (List Vpa)) → Outcome
outcome_of end none = broken other
outcome_of none (some m) = whole m
outcome_of (some e) (some m) = broken e

-- A parse, and the parse of more.
abbrev parse_then : List Item → Option (GoMap (List Vpa)) → Option (GoMap (List Vpa))
parse_then items none = none
parse_then items (some m) = parse items m

append_nil : {A : Type 0} (xs : List A) → (xs ++ []) ≡ xs
append_nil [] = refl
append_nil (x ∷ xs) = ap (λ r. x ∷ r) (append_nil xs)

append_assoc : {A : Type 0} (xs ys zs : List A) → ((xs ++ ys) ++ zs) ≡ (xs ++ (ys ++ zs))
append_assoc [] ys zs = refl
append_assoc (x ∷ xs) ys zs = ap (λ r. x ∷ r) (append_assoc xs ys zs)

parse-append :
    (xs ys : List Item) (m : GoMap (List Vpa)) → parse (xs ++ ys) m ≡ parse_then ys (parse xs m)
unfolding parse parse_item
parse-append [] ys m = refl
parse-append (i ∷ xs) ys m = step i.spec (λ m'. parse-append xs ys m')
  where
    step :
        (o : Option VpaSpec)
        → ((m' : GoMap (List Vpa)) → parse (xs ++ ys) m' ≡ parse_then ys (parse xs m'))
        → parse_item i o m (λ m'. parse (xs ++ ys) m')
          ≡ parse_then ys (parse_item i o m (λ m'. parse xs m'))
    step none h = refl
    step (some spec) h = h (add_vpa i.namespace (vpa_of i.name spec) m)

module _ (reader : String → Answer) where
  after_page-last :
      (token : String) (o : Option (GoMap (List Vpa))) (next : GoMap (List Vpa) → Outcome)
      → str_eq token "" ≡ true
      → after_page token o next ≡ outcome_of none o
  unfolding after_page
  after_page-last token none next e = refl
  after_page-last token (some m) next e = rw e refl

  after_page-more :
      (token : String) (o : Option (GoMap (List Vpa))) (next : GoMap (List Vpa) → Outcome)
      (end : Option ListError) (items : List Item)
      → str_eq token "" ≡ false
      → ((m : GoMap (List Vpa)) → next m ≡ outcome_of end (parse items m))
      → after_page token o next ≡ outcome_of end (parse_then items o)
  unfolding after_page
  after_page-more token none next end items e h = refl
  after_page-more token (some m) next end items e h = rw e (h m)

  last_page_lem :
      (p : Page) (m : GoMap (List Vpa)) (next : String → GoMap (List Vpa) → Outcome)
      → str_eq p.continue_token "" ≡ true
      → on_answer (page p) m next ≡ outcome_of none (parse (p.items ++ []) m)
  unfolding on_answer
  last_page_lem p m next final =
      after_page-last p.continue_token (parse p.items m) (next p.continue_token) final
      ∙ ap (λ items. outcome_of none (parse items m)) (sym (append_nil p.items))

  more_pages_lem :
      (p : Page) (m : GoMap (List Vpa)) (next : String → GoMap (List Vpa) → Outcome)
      (end : Option ListError) (ps : List Page)
      → str_eq p.continue_token "" ≡ false
      → ((m' : GoMap (List Vpa))
          → next p.continue_token m' ≡ outcome_of end (parse (items_of ps) m'))
      → on_answer (page p) m next ≡ outcome_of end (parse (p.items ++ items_of ps) m)
  unfolding on_answer
  more_pages_lem p m next end ps on h =
      after_page-more p.continue_token (parse p.items m) (next p.continue_token) end (items_of ps)
        on h
      ∙ ap (outcome_of end) (sym (parse-append p.items (items_of ps) m))

  stop_lem :
      (e : ListError) (m : GoMap (List Vpa)) (next : String → GoMap (List Vpa) → Outcome)
      → on_answer (error e) m next ≡ outcome_of (some e) (parse [] m)
  unfolding on_answer parse
  stop_lem e m next = refl

  -- One round more than there are pages is enough, and gives what all items together come to.
  pub list_from-Pages :
      {token : String} {ps : List Page} {end : Option ListError}
      → Pages reader token ps end
      → (rounds : ℕ) (m : GoMap (List Vpa)) → suc (length ps) ≤ rounds
      → list_from reader rounds token m ≡ outcome_of end (parse (items_of ps) m)
  unfolding list_from
  list_from-Pages h zero m fits = absurd (omega arith)
  list_from-Pages (last {token} {p} e final) (suc rounds) m fits =
      ap (λ a. on_answer a m (λ t m'. list_from reader rounds t m')) e
      ∙ last_page_lem p m (λ t m'. list_from reader rounds t m') final
  list_from-Pages (more {token} {p} {ps} {end} e on h) (suc rounds) m fits =
      ap (λ a. on_answer a m (λ t m'. list_from reader rounds t m')) e
      ∙ more_pages_lem p m (λ t m'. list_from reader rounds t m') end ps on
          (λ m'. list_from-Pages h rounds m' (omega arith))
  list_from-Pages (stops {token} {e} failed) (suc rounds) m fits =
      ap (λ a. on_answer a m (λ t m'. list_from reader rounds t m')) failed ∙ stop_lem e m _

-- The VPAs of a namespace among items that are all decoded, in order.
abbrev pub is_decoded : Option VpaSpec → Bool
is_decoded none = false
is_decoded (some spec) = true

abbrev pub all_decoded : List Item → Bool
all_decoded [] = true
all_decoded (i ∷ items) = is_decoded i.spec && all_decoded items

abbrev pub if_in : Bool → Item → Option VpaSpec → List Vpa → List Vpa
if_in b i none vpas = vpas
if_in b i (some spec) vpas = if b then vpa_of i.name spec ∷ vpas else vpas

abbrev pub vpas_of : String → List Item → List Vpa
vpas_of ns [] = []
vpas_of ns (i ∷ items) = if_in (str_eq i.namespace ns) i i.spec (vpas_of ns items)

vpas_at-add_vpa :
    (ns name : String) (v : Vpa) (m : GoMap (List Vpa))
    → vpas_at (lookup ns (add_vpa name v m))
      ≡ (vpas_at (lookup ns m) ++ (if str_eq name ns then v ∷ [] else []))
unfolding add_vpa
vpas_at-add_vpa ns name v m =
    ap vpas_at (lookup-insert name ns (vpas_at (lookup name m) ++ v ∷ []) m)
    ∙ by_name (str_eq name ns) refl
  where
    by_name :
        (b : Bool)
        → str_eq name ns ≡ b
        → vpas_at (if b then some (vpas_at (lookup name m) ++ v ∷ []) else lookup ns m)
          ≡ (vpas_at (lookup ns m) ++ (if b then v ∷ [] else []))
    by_name false e = sym (append_nil (vpas_at (lookup ns m)))
    by_name true e = ap (λ k. vpas_at (lookup k m) ++ v ∷ []) (str_eq-true name ns e)

-- parse groups the items by namespace, or one of them is not decoded and it fails.
abbrev Grouped : List Item → GoMap (List Vpa) → Option (GoMap (List Vpa)) → Type 0
Grouped items m o =
    ((all_decoded items ≡ true)
      × (m' : GoMap (List Vpa)) × (o ≡ some m')
      × ((ns : String) → vpas_at (lookup ns m') ≡ (vpas_at (lookup ns m) ++ vpas_of ns items)))
    ⊎ ((all_decoded items ≡ false) × (o ≡ none))

-- One more entry for a namespace, and the rest.
extended :
    (b : Bool) (v : Vpa) (before rest : List Vpa)
    → ((before ++ (if b then v ∷ [] else [])) ++ rest) ≡ (before ++ (if b then v ∷ rest else rest))
extended true v before rest = append_assoc before (v ∷ []) rest
extended false v before rest = ap (λ l. l ++ rest) (append_nil before)

Grouped-cons :
    (i : Item) (items : List Item) (m : GoMap (List Vpa)) (o : Option VpaSpec)
    → ((m' : GoMap (List Vpa)) → Grouped items m' (parse items m'))
    → (((is_decoded o && all_decoded items) ≡ true)
        × (m' : GoMap (List Vpa)) × (parse_item i o m (λ k. parse items k) ≡ some m')
        × ((ns : String)
            → vpas_at (lookup ns m')
              ≡ (vpas_at (lookup ns m) ++ if_in (str_eq i.namespace ns) i o (vpas_of ns items))))
      ⊎ (((is_decoded o && all_decoded items) ≡ false)
          × (parse_item i o m (λ k. parse items k) ≡ none))
unfolding parse_item
Grouped-cons i items m none h = inr (refl, refl)
Grouped-cons i items m (some spec) h =
    let v = vpa_of i.name spec in
    elim (h (add_vpa i.namespace v m)) [
      | inr (undecoded, e) ↦ inr (undecoded, e)
      | inl (decoded, m', e, groups) ↦ inl (
        decoded,
        m',
        e,
        λ ns.
            groups ns
            ∙ ap (λ l. l ++ vpas_of ns items) (vpas_at-add_vpa ns i.namespace v m)
            ∙ extended (str_eq i.namespace ns) v (vpas_at (lookup ns m)) (vpas_of ns items),
      )
    ]

parse-Grouped : (items : List Item) (m : GoMap (List Vpa)) → Grouped items m (parse items m)
unfolding parse
parse-Grouped [] m = inl (refl, m, refl, λ ns. sym (append_nil (vpas_at (lookup ns m))))
parse-Grouped (i ∷ items) m = Grouped-cons i items m i.spec (parse-Grouped items)

-- The view is kept or emptied as a whole.
abbrev pub KeptOrEmptied : Poller → Poller → Type 0
KeptOrEmptied p p' = (p'.by_ns ≡ p.by_ns) ⊎ (p'.by_ns ≡ [])

broken_lem : (e : ListError) (p : Poller) → KeptOrEmptied p (refresh (listing false (broken e)) p).0
unfolding listing refresh
broken_lem no_match p = inr refl
broken_lem not_found p = inr refl
broken_lem refused p = inr refl
broken_lem other p = inl refl

-- What a refresh makes of the pages: the VPAs of every namespace, or no part of them.
abbrev pub Viewed : Option ListError → List Item → Poller → Poller → String → Type 0
Viewed end items p p' ns =
    ((end ≡ none) × (all_decoded items ≡ true) × (for_namespace p' ns ≡ vpas_of ns items))
    ⊎ ((((e : ListError) × (end ≡ some e)) ⊎ (all_decoded items ≡ false)) × KeptOrEmptied p p')

viewed_lem :
    (end : Option ListError) (items : List Item) (o : Option (GoMap (List Vpa))) (p : Poller)
    (ns : String)
    → Grouped items [] o
    → Viewed end items p (refresh (listing false (outcome_of end o)) p).0 ns
unfolding listing refresh for_namespace
viewed_lem none items none p ns (inl (decoded, m, e, groups)) = absurd (cc e)
viewed_lem none items none p ns (inr (undecoded, e)) = inr (inr undecoded, broken_lem other p)
viewed_lem (some e) items none p ns g = inr (inl (e, refl), broken_lem other p)
viewed_lem (some e) items (some m) p ns g = inr (inl (e, refl), broken_lem e p)
viewed_lem none items (some m) p ns (inr (undecoded, e)) = absurd (cc e)
viewed_lem none items (some m) p ns (inl (decoded, m', e, groups)) = inl (
  refl,
  decoded,
  at_lem (lookup ns m) ∙ ap (λ k. vpas_at (lookup ns k)) (some-injective m m' e) ∙ groups ns,
)
  where
    at_lem : (o : Option (List Vpa)) → elim o [ none ↦ [] | some vpas ↦ vpas ] ≡ vpas_at o
    at_lem none = refl
    at_lem (some vpas) = refl

-- Where the API server gives finitely many pages from the empty token on, ended by an empty token
-- or by an error, and list has more rounds than there are pages, a Refresh on its result serves for
-- each namespace the VPAs of all items of that namespace, in order, if no error ends the pages and
-- every item is decoded; otherwise it keeps the view or empties it as a whole.
pub refresh-Pages :
    (reader : String → Answer) (ps : List Page) (end : Option ListError) (rounds : ℕ) (p : Poller)
    (ns : String)
    → Pages reader "" ps end
    → suc (length ps) ≤ rounds
    → Viewed end (items_of ps) p (refresh (listing false (list reader rounds)) p).0 ns
unfolding list
refresh-Pages reader ps end rounds p ns pages fits =
    subst (λ (o : Outcome). Viewed end (items_of ps) p (refresh (listing false o) p).0 ns)
      (sym (list_from-Pages reader pages rounds [] fits))
      (viewed_lem end (items_of ps) (parse (items_of ps) []) p ns (parse-Grouped (items_of ps) []))
