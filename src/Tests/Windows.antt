-- ===== src/Tests/Windows.antt =====
-- Examples for the fixed window of crudauth/ratelimit/base.py.
use crudauth.Http.Forwarded.{forged_hops_ignored}
use crudauth.Http.{get_client_ip, split, join, stripped, forwarded_parts}
use crudauth.Tests.{plain, home}
use crudauth.Prelude.{arith, ◌≡◌, none, codes, ◌∷◌, [], Text, ℕ, List}

-- 6 requests of 5 at second 130 of windows of a minute.

-- One trusted proxy appended the last line.
forged_hops_ignored_example :
    get_client_ip plain
      (record {
        sec_fetch_site = none;
        forwarded_for = codes "10.9.9.9" ∷ (home ∷ []);
        client_host = none;
      })
      1
    ≡ get_client_ip plain
        (record { sec_fetch_site = none; forwarded_for = home ∷ []; client_host = none })
        1
unfolding forwarded_parts join split stripped
forged_hops_ignored_example =
    forged_hops_ignored plain (codes "10.9.9.9" ∷ []) home [] 1 none none (omega arith)

-- The digest of a step is the step's number, twenty times.
abbrev pub step_digest : Text → ℕ → List ℕ
step_digest secret step =
    0 ∷ 0 ∷ 0 ∷ step ∷ 0 ∷ 0 ∷ 0 ∷ 0 ∷ 0 ∷ 0 ∷ 0 ∷ 0 ∷ 0 ∷ 0 ∷ 0 ∷ 0 ∷ 0 ∷ 0 ∷ 0 ∷ 0 ∷ []

-- The code of step 50, given in step 51.
