-- ===== src/Session/Routing/Pins.antt =====
-- The queries after which serveRouting of internal/proxy/session.go pins a session.
use pgpilot.Base.{ℕ, ◌≡◌, refl, inl, inr, String, none, Option-cases}
use pgpilot.Base.Float.{Float64}
use pgpilot.Router.Policy.{Policy}
use pgpilot.Sql.Classify.{Class, read, write}
use pgpilot.Sql.Detect.{breaks_tx_pooling}
use pgpilot.Sql.Detect.Writes.{breaks_tx_pooling-classify}
use pgpilot.Session.Select.{Fencing}
use pgpilot.Session.Routing.{Analysis, class_of, breaks_of, is_feature}

module _ (fl : Float64) (cfg : Fencing) (an : Analysis) (policy : Policy fl.F) (fuel : ℕ) where
  -- Although BreaksTxPooling is asked about writes alone, serveRouting takes a query for one that
  -- leaves session state behind exactly if BreaksTxPooling reports a feature of it.
  pub breaks_of-breaks_tx_pooling :
      (sql : String)
      → breaks_of fl cfg an policy fuel (class_of fl cfg an policy fuel sql) sql
        ≡ is_feature (breaks_tx_pooling an.parse sql)
  breaks_of-breaks_tx_pooling sql = elim (Option-cases (breaks_tx_pooling an.parse sql)) [
    | inl e ↦ go (class_of fl cfg an policy fuel sql) e
    | inr (f, e) ↦ rw (breaks_tx_pooling-classify an.to_lower an.equal_fold an.parse sql f e) refl
  ]
    where
      go :
          (class : Class)
          → breaks_tx_pooling an.parse sql ≡ none
          → breaks_of fl cfg an policy fuel class sql ≡ is_feature (breaks_tx_pooling an.parse sql)
      go read e = rw e refl
      go write e = refl
