-- ===== src/Controller/PodInput/Shares.antt =====
-- splitLimit: the requests as natural numbers, and the shares that the first loop computes.
use native.Mathlib.Nat.{mul-le-mul_right, div-mul-le_self, le-div_iff_mul-le}
use kube_headroom.Prelude.{ℕ, ◌+◌, ◌*◌, ◌/◌, ◌^◌, ◌≤◌, ◌<◌, ◌≡◌, ap, ◌∙◌, List, [], ◌∷◌, arith, All}
use kube_headroom.Prelude.Int.{pos, pos_part, max}
use kube_headroom.Prelude.Int64
use kube_headroom.Float.Quotient.{to_int-rounded}
use kube_headroom.Float.Laws.{mul-of_int, div-of_int}
use kube_headroom.Policy.Quantize.{add_pos}
use kube_headroom.Eligibility.{ResizableContainer, sum_requests}
use kube_headroom.Controller.PodInput.{exact_share, base_share}
use kube_headroom.Controller.PodInput.Amounts.{IsAmount, amount_eq}

-- A request, as a natural number.
abbrev pub request_of : ResizableContainer → ℕ
request_of c = pos_part c.request_milli

abbrev pub requests_sum : List ResizableContainer → ℕ
requests_sum [] = 0
requests_sum (c ∷ rcs) = request_of c + requests_sum rcs

-- No request is negative.
abbrev pub AreRequests : List ResizableContainer → Type 0
AreRequests = All λ c. IsAmount c.request_milli

pub sum_requests_lem :
    (rcs : List ResizableContainer) (s : ℕ)
    → AreRequests rcs
    → s + requests_sum rcs < 2 ^ 63
    → sum_requests (pos s) rcs ≡ pos (s + requests_sum rcs)
unfolding sum_requests
sum_requests_lem [] s h fits = ap pos (omega arith)
sum_requests_lem (c ∷ rcs) s h fits =
    ap (λ x. sum_requests (Int64.add (pos s) x) rcs) (amount_eq c.request_milli h.0)
    ∙ ap (λ x. sum_requests x rcs) (add_pos s (request_of c) (omega arith))
    ∙ sum_requests_lem rcs (s + request_of c) h.1 (omega arith)
    ∙ ap pos (omega arith)

-- The exact share, without its fraction.
abbrev pub share : ℕ → ℕ → ℕ → ℕ
share target total r = target * r / total

-- The float64 share loses nothing but its fraction.
pub base_share_lem :
    (target total r : ℕ)
    → total ≤ target
    → 0 < total
    → target < 2 ^ 52
    → r ≤ total
    → target * r < 2 ^ 53
    → base_share (pos target) (pos r) (pos total) ≡ pos (share target total r)
unfolding base_share exact_share max
base_share_lem target total r tt' pt ht hr hx =
    let low : r ≤ share target total r =
      (le-div_iff_mul-le {k = total} {x = r} {y = target * r} pt).1
        (omega (arith, mul-le-mul_right r tt')) in
    rw
      (
        mul-of_int target r (omega arith) (omega arith),
        div-of_int (target * r) total hx pt (omega arith),
        to_int-rounded (target * r) total pt hx (omega arith),
      )
      (ground arith)

-- Shares of a container list.
abbrev pub shares_sum : ℕ → ℕ → List ResizableContainer → ℕ
shares_sum target total [] = 0
shares_sum target total (c ∷ rcs) = share target total (request_of c) + shares_sum target total rcs

pub shares_sum-le :
    (target total : ℕ) (rcs : List ResizableContainer)
    → shares_sum target total rcs * total ≤ target * requests_sum rcs
shares_sum-le target total [] = omega arith
shares_sum-le target total (c ∷ rcs) =
    omega (arith, shares_sum-le target total rcs, div-mul-le_self (target * request_of c) total)
