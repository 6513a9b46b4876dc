-- ===== src/Migrations/Checkout.antt =====
-- migrations/versions/4bafa6e29c73_invoice_checkout_session_id.py, and the run of both migrations.
use human_data.Prelude.{List, ◌++◌, ◌∷◌, []}
use human_data.Migrations.{Op, add_column, drop_column, optional, string}
use human_data.Migrations.Baseline.{baseline_upgrade, baseline_downgrade}

-- `upgrade` and `downgrade`
abbrev pub checkout_upgrade : List Op
checkout_upgrade = add_column "invoices" (optional "checkout_session_id" string) ∷ []

abbrev pub checkout_downgrade : List Op
checkout_downgrade = drop_column "invoices" "checkout_session_id" ∷ []

-- `alembic upgrade head`, by the `down_revision` of each, and `alembic downgrade base`
abbrev pub upgrade_head : List Op
upgrade_head = baseline_upgrade ++ checkout_upgrade

abbrev pub downgrade_base : List Op
downgrade_base = checkout_downgrade ++ baseline_downgrade
