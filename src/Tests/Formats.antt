-- ===== src/Tests/Formats.antt =====
-- A run of src/caps.rs: a shell that names one format twice.
use ihs_wl_server.Prelude.{◌≡◌, refl, true, [], ◌∷◌, some}
use ihs_wl_server.Caps.{Capabilities, EglContext, offers, import_formats, push_new, query}

abbrev shell : Capabilities
shell = record {
  ok = true;
  render_device = 57856;
  images = true;
  formats = some (
      record { fourcc = 7; modifier = 1 }
      ∷ record { fourcc = 8; modifier = 0 }
      ∷ record { fourcc = 7; modifier = 1 }
      ∷ []);
}

abbrev egl : EglContext
egl = record { ok = true; display = 4096; config = 8192 }

listed_once :
    (query shell egl).formats
    ≡ record { fourcc = 7; modifier = 1 } ∷ record { fourcc = 8; modifier = 0 } ∷ []
unfolding query import_formats push_new offers
listed_once = refl
