-- ===== src/Tests/Gate.antt =====
-- The approval and the gate, for the sample order.
use investing_agents.Prelude.{◌≡◌, ◌≤◌, ◌<◌, ◌⊎◌, refl, true, false, [], ◌∷◌, some}
use investing_agents.Result.{ok, err, Error}
use investing_agents.Decimal.{whole}
use investing_agents.Domain.Types.{Digest, demo}
use investing_agents.Domain.Evidence.{OrderIntent, Approval, uuid_text, plain, validate_approval}
use investing_agents.Risk.Limits.{RiskLimits}
use investing_agents.Risk.Authority.{issue, verify}
use investing_agents.Risk.KillSwitch.{KillSwitchStatus}
use investing_agents.Risk.Gate.{GovernanceWritePolicy, authorize}
use investing_agents.Risk.GateLaws.{
  issue-verify, authorize_exact, MayAuthorize, authorization, is_ok,
}
use investing_agents.Tests.Samples.{intent, decision, approval}

abbrev pub limits : RiskLimits
limits = record {
  schema_version = "1.0";
  environment = demo;
  max_order_equity_fraction = whole 1;
  max_issuer_fraction = whole 1;
  max_sector_fraction = whole 1;
  max_gross_fraction = whole 1;
  max_net_fraction = whole 1;
  min_cash_buffer_fraction = whole 1;
  required_leverage = whole 1;
  daily_loss_stop_fraction = whole 1;
  drawdown_stop_fraction = whole 1;
  quote_max_age_seconds = 15;
  account_max_age_seconds = 30;
  approval_max_age_seconds = 300;
  regular_hours_only = true;
  allowed_asset_types = "equity" ∷ [];
}

abbrev pub hash : OrderIntent → Digest
hash i = i.intent_hash

abbrev pub issued : Approval
issued = record approval {
  issued_at = 102000000;
  expires_at = 402000000;
  limits =
      ("risk_decision_id", uuid_text 21)
      ∷ ("account_snapshot_id", plain "snap")
      ∷ ("quote_id", plain "quote")
      ∷ [];
}

issue-issued : issue limits 31 intent decision "human" 102000000 true [] ≡ ok issued
unfolding issue validate_approval
issue-issued = refl

issue-verify_example :
    (102000000 < 402000000)
    × (402000000 ≤ 1000000000)
    × (402000000 ≤ 402000000)
    × (is_ok (verify hash issued intent 402000000) ≡ false)
issue-verify_example =
    issue-verify hash limits 31 intent decision "human" 102000000 true [] issued 402000000
      issue-issued refl

abbrev pub released : KillSwitchStatus
released = record {
  engaged = false;
  integrity_valid = true;
  environment = demo;
  revision = 2;
  reason = "resumed";
  updated_at = some 99000000;
}

abbrev pub manual : GovernanceWritePolicy
manual = record {
  execution_mode = "demo_manual";
  allow_broker_api = true;
  allow_order_submission = true;
  manual_signoff_required = true;
}

authorize_exact_example :
    (MayAuthorize hash limits intent decision issued released true true manual 103000000
      × (authorize hash limits intent decision issued released true true manual 103000000
          ≡ ok (authorization intent decision issued 103000000)))
    ⊎ ((¬ (MayAuthorize hash limits intent decision issued released true true manual 103000000))
        × (e : Error) × (authorize hash limits intent decision issued released true true manual
              103000000
            ≡ err e))
authorize_exact_example =
    authorize_exact hash limits intent decision issued released true true manual 103000000
