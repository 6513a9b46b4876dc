-- ===== src/Examples/Schema.antt =====
-- The migrations on a schema that holds Alembic's own table.
use human_data.Migrations.{Schema, run, Table, apply, required, change_table, string}
use human_data.Migrations.Head.{head_tables, are_same_tables, upgrade-model_tables}
use human_data.Prelude.{◌++◌, ◌∷◌, ◌≡◌, some, [], refl, true}
use human_data.Migrations.Checkout.{downgrade_base}
use human_data.Migrations.RoundTrip.{downgrade-upgrade}
use human_data.Migrations.Models.{model_tables}

abbrev alembic_version : Table
alembic_version = record {
  name = "alembic_version";
  columns = required "version_num" string ∷ [];
  foreign_keys = [];
  primary_key = "version_num";
  unique = [];
}

abbrev upgraded : Schema
upgraded = head_tables ++ alembic_version ∷ []

downgrade-upgrade_example : run downgrade_base upgraded ≡ some (alembic_version ∷ [])
unfolding run apply change_table
downgrade-upgrade_example = downgrade-upgrade (alembic_version ∷ []) upgraded refl refl

upgrade-model_tables_example :
    (new : Schema) × (upgraded ≡ new ++ alembic_version ∷ [])
    × (are_same_tables new model_tables ≡ true)
unfolding run apply change_table
upgrade-model_tables_example = upgrade-model_tables (alembic_version ∷ []) upgraded refl
