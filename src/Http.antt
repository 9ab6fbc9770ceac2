-- ===== src/Http.antt =====
-- A response of `reqwest` and what can become of a request behind the semaphore of a client, as the
-- clients of src/integrations/ceph and src/integrations/tekton see them.
use homelab_mcp.Prelude.{ℕ, Bool, ◌&&◌, Option, List, leb}

-- a response: its status, its length if it has one, and what `chunk()` returns until its end
pub record Response : Type 0 where
  pub status : ℕ
  pub content_length : Option ℕ
  pub chunks : List (Option (List ℕ))

-- what became of one request
pub data Answer : Type 0 where
  -- the permits are used up
  no_permit : Answer
  -- the request timed out; a mutation may have been applied
  too_slow : Answer
  -- the request could not be sent, or broke
  broken : Answer
  responded : Response → Answer

abbrev pub is_success : ℕ → Bool
is_success status = leb 200 status && leb status 299

abbrev pub is_client_error : ℕ → Bool
is_client_error status = leb 400 status && leb status 499
