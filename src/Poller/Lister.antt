-- ===== src/Poller/Lister.antt =====
-- internal/vpa/poller.go: list and parse, which read the VerticalPodAutoscalers page by page, with Synced
-- and the rounds of Start. The API server is a function from a continue token to its answer; reading and
-- decoding the spec of an item (apimachinery's unstructured converter) has its outcome in the item.
pub mod Pages
use kube_headroom.Prelude.{
  ℕ, zero, suc, ◌≡◌, refl, Bool, true, false, if◌then◌else◌, Option, none, some, List, [], ◌∷◌,
  ◌++◌, String,
}
use kube_headroom.Prelude.Text.{lookup, insert, str_eq}
use kube_headroom.Kube.{GoMap}
use kube_headroom.Eligibility.Vpa.{Vpa, VpaContainerPolicy}
use kube_headroom.Poller.{Poller, Listing, listed, absent, forbidden, failing, ended, refresh}

pub record VpaSpec : Type 0 where
  pub target_kind : String
  pub target_name : String
  pub update_mode : String
  pub container_policies : List VpaContainerPolicy

-- An item of a page; its spec is none where it cannot be read or decoded.
pub record Item : Type 0 where
  pub namespace : String
  pub name : String
  pub spec : Option VpaSpec

pub record Page : Type 0 where
  pub items : List Item
  pub continue_token : String

-- An error of list, by the kinds that Refresh tells apart.
pub data ListError : Type 0 where
  no_match : ListError
  not_found : ListError
  refused : ListError
  other : ListError

pub data Answer : Type 0 where
  page : Page → Answer
  error : ListError → Answer

abbrev pub vpa_of : String → VpaSpec → Vpa
vpa_of name spec = record {
  name = name;
  target_kind = spec.target_kind;
  target_name = spec.target_name;
  update_mode = spec.update_mode;
  policies = spec.container_policies;
}

-- The read of a key of the map of slices.
abbrev pub vpas_at : Option (List Vpa) → List Vpa
vpas_at none = []
vpas_at (some vpas) = vpas

unfoldable pub add_vpa : String → Vpa → GoMap (List Vpa) → GoMap (List Vpa)
add_vpa ns v by_ns = insert ns (vpas_at (lookup ns by_ns) ++ v ∷ []) by_ns

-- The body of the loop of parse, and the items after it; none is an error.
unfoldable pub parse_item :
    Item
    → Option VpaSpec
    → GoMap (List Vpa)
    → (GoMap (List Vpa) → Option (GoMap (List Vpa)))
    → Option (GoMap (List Vpa))
parse_item i none by_ns rest = none
parse_item i (some spec) by_ns rest = rest (add_vpa i.namespace (vpa_of i.name spec) by_ns)

unfoldable pub parse : List Item → GoMap (List Vpa) → Option (GoMap (List Vpa))
parse [] by_ns = some by_ns
parse (i ∷ items) by_ns = parse_item i i.spec by_ns (λ m. parse items m)

-- What list returns; a loop that is still reading pages when its rounds are up is unfinished.
pub data Outcome : Type 0 where
  whole : GoMap (List Vpa) → Outcome
  broken : ListError → Outcome
  unfinished : Outcome

-- A page that has been parsed, and the next one where its token is not empty.
unfoldable pub after_page :
    String → Option (GoMap (List Vpa)) → (GoMap (List Vpa) → Outcome) → Outcome
after_page token none next = broken other
after_page token (some by_ns) next = if str_eq token "" then whole by_ns else next by_ns

unfoldable pub on_answer :
    Answer → GoMap (List Vpa) → (String → GoMap (List Vpa) → Outcome) → Outcome
on_answer (error e) by_ns next = broken e
on_answer (page p) by_ns next =
    after_page p.continue_token (parse p.items by_ns) (next p.continue_token)

-- The loop of list, on a number of rounds.
unfoldable pub list_from : (String → Answer) → ℕ → String → GoMap (List Vpa) → Outcome
list_from reader zero token by_ns = unfinished
list_from reader (suc rounds) token by_ns =
    on_answer (reader token) by_ns (λ t m. list_from reader rounds t m)

unfoldable pub list : (String → Answer) → ℕ → Outcome
list reader rounds = list_from reader rounds "" []

-- What Refresh makes of list's result, and of the end of its context: that end is all that stops a
-- list without a last page.
unfoldable pub listing : Bool → Outcome → Listing
listing true outcome = ended
listing false (whole by_ns) = listed by_ns
listing false (broken no_match) = absent
listing false (broken not_found) = absent
listing false (broken refused) = forbidden
listing false (broken other) = failing
listing false unfinished = ended

-- Synced; a nil Poller is synced.
unfoldable pub is_synced : Option Poller → Bool
is_synced none = true
is_synced (some p) = p.synced

-- The rounds of Start: one refresh for each tick, and what they offer to the channel, in order.
unfoldable pub run : List Listing → Poller → Poller × List String
run [] p = (p, [])
run (l ∷ ticks) p =
    let (p', offered) = refresh l p in let (p'', rest) = run ticks p' in (p'', offered ++ rest)
