-- ===== src/Services/Guarantees/Creation.antt =====
-- Creating the same request twice at once.
use acme_api.Common.{ℕ, Option, none, some, ◌≡◌}
use acme_api.Models.Certificate.{Certificate}
use acme_api.Models.World.{World, ok}
use acme_api.Ports.Settings.{AcmeAccountConfig}
use acme_api.Ports.Backend.{Backend}
use acme_api.Ports.Dispatcher.{Dispatcher}
use acme_api.Services.Requests.{CertificateCreate, find_request, build_row, insert_row, create_from}

-- A creation whose look-up missed a row that another task has committed meanwhile answers, and
-- leaves the world, as if it had seen that row, provided that its own row could be built.
pub create_race :
    (backend : Backend) (hooks : Option Dispatcher) (id : ℕ) (account : AcmeAccountConfig)
    (p : CertificateCreate) (existing row : Certificate) (w : World)
    → find_request p w ≡ some existing
    → build_row backend id account p ≡ ok row
    → create_from backend hooks none id account p w
      ≡ create_from backend hooks (some existing) id account p w
unfolding create_from
create_race backend hooks id account p existing row w h b = rw (b, create_from) (rw (h, insert_row))
