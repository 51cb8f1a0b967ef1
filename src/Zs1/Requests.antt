-- ===== src/Zs1/Requests.antt =====
-- The markers requests of `CstZs1Context::acquire` (libaqmd3/src/cstzs1context.cpp).
use aq_md3_acquisition_conso.Common.{ℕ, ◌+◌, ◌*◌, ◌^◌, ◌≤◌, ◌<◌, ◌≡◌, arith, none}
use aq_md3_acquisition_conso.Common.Int.{ℤ, pos}
use aq_md3_acquisition_conso.Stream.{check_fetch_alignment, Fetch}
use aq_md3_acquisition_conso.Zs1.Acquire.{markers_request, next_request, grown}

-- A number of triggers whose largest request is an `int`.
abbrev pub IsRequestable : ℕ → Type 0
IsRequestable t = (0 < t) × (t * 128 < 2 ^ 31)

pub record IsRequest (t : ℕ) (request : ℤ) (m : ℕ) : Type 0 where
  pub value : request ≡ pos (t * 16 * m)
  pub least : 1 ≤ m
  pub most : m ≤ 8

pub markers_request-pos :
    (t m : ℕ) → IsRequestable t → m ≤ 8 → markers_request t m ≡ pos (t * 16 * m)
unfolding markers_request
markers_request-pos t m h le = let small : t * 16 * m < 2 ^ 31 = grind arith in ground arith

pub first_IsRequest : (t : ℕ) → IsRequestable t → IsRequest t (markers_request t 1) 1
first_IsRequest t h = record {
  value = markers_request-pos t 1 h (omega arith);
  least = omega arith;
  most = omega arith;
}

pub next_IsRequest :
    (t : ℕ) (f : Fetch) (request : ℤ) (m : ℕ)
    → IsRequestable t
    → IsRequest t request m
    → IsRequest t (next_request t f request m) (grown f request m)
unfolding next_request grown
next_IsRequest t f request m h v = ground (arith, markers_request-pos t (m + 1) h)

pub IsRequest-aligned :
    (t : ℕ) (request : ℤ) (m : ℕ)
    → IsRequestable t
    → IsRequest t request m
    → check_fetch_alignment request ≡ none
unfolding check_fetch_alignment
IsRequest-aligned t request m h v =
    let positive : 0 < t * m = grind arith in
    let size : t * 16 * m ≡ t * m * 16 = grind arith in ground (arith, v.value)
