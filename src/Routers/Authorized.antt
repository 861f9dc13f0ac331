-- ===== src/Routers/Authorized.antt =====
-- Which requests to acme_api/routers/certificates.py have an effect at all.
use acme_api.Common.{ℕ, String, Option, some, List, ◌≡◌, ◌≢◌}
use acme_api.Models.World.{World}
use acme_api.Auth.Keys.{readonly, ApiKey}
use acme_api.Auth.Access.{AuthenticatedUser, Access}
use acme_api.Auth.Soundness.{Grant}
use acme_api.Routers.Replies.{Reply, refused}
use acme_api.Routers.Certificates.{App}
use Prim.Native.String.{◌++◌}

-- The reply refuses the request and the world is as before.
abbrev pub IsRefused : Reply × World → World → Type 0
IsRefused r w = (status : ℕ) × (detail : String) × (r ≡ (refused status detail, w))

module _ (app : App) (keys : List ApiKey) (header : Option String) (w : World) where
  -- The request carries a valid key of an operator or an administrator.
  abbrev pub IsOperator : Type 0
  IsOperator =
      (u : AuthenticatedUser) × (token : String) × (header ≡ some ("Bearer " ++ token))
      × Grant app.digests keys w.now token u
      × (u.role ≢ readonly)
