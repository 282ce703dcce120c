-- ===== src/Tests/Staging.antt =====
-- A run of src/staging.rs: a commit is copied while the shell reads the slot of the one before.
use ihs_wl_server.Prelude.{refl, true, [], ◌∷◌, some, arith, get_elem?}
use ihs_wl_server.Staging.{Ring, Request, stage}
use ihs_wl_server.Staging.Busy.{SameContent, stage-SameContent}

abbrev ring : Ring
ring = record {
  width = 64;
  height = 32;
  fourcc = some 875713112;
  slots = record { uid = 1; commit = some 1; clones = 1 } ∷ [];
  newest = some 0;
}

abbrev request : Request
request = record {
  width = 64;
  height = 32;
  fourcc = 875713112;
  commit = 2;
  allocates = true;
  copies = true;
}

stage-SameContent_example :
    SameContent
      (record { uid = 1; commit = some 1; clones = 1 })
      (get_elem? (stage request 1 ring).ring.slots 0)
stage-SameContent_example =
    stage-SameContent request 1 ring 0 (record { uid = 1; commit = some 1; clones = 1 }) refl refl
      refl refl (omega arith)
