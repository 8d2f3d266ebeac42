-- ===== src/Db/Store/Seed.antt =====
-- The snapshot that a reset starts from.
use kxinspect_backend.Base.{refl, String, arith, []}
use kxinspect_backend.Db.Text.{Text}
use kxinspect_backend.Db.Cursor.{baseline_cursor_lem, IsEpoch}
use kxinspect_backend.Db.Entities.{Entities}
use kxinspect_backend.Db.Store.{seed_snapshot}
use kxinspect_backend.Db.Store.Ring.{done, RefinesLog}

-- A seeded snapshot refines the empty log: no event has been published in its stream epoch.
pub seed_snapshot-RefinesLog :
    (seed : Entities) (state_epoch : String) (stream_epoch : Text)
    → IsEpoch stream_epoch
    → RefinesLog (seed_snapshot seed state_epoch stream_epoch) []
unfolding seed_snapshot
seed_snapshot-RefinesLog seed state_epoch stream_epoch h = record {
  epoch_ok = h;
  top_revision = 0;
  top_ordinal = 0;
  chain = done;
  cursor = baseline_cursor_lem stream_epoch;
  ring = refl;
  evicted = refl;
  below = omega arith;
}
