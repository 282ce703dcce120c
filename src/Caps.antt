-- ===== src/Caps.antt =====
-- src/caps.rs: what the shell can import, as it answers to the server's queries. A pointer is its
-- address, 0 if it is null, and the offered formats are none if their pointer is null.
pub mod Offered
use ihs_wl_server.Prelude.{
  ℕ, ◌+◌, ◌*◌, Bool, true, false, not, ◌&&◌, ◌||◌, List, [], ◌∷◌, ◌++◌, map, Option, none, some,
  ◌==◌, if◌then◌else◌,
}

pub record FormatModifier : Type 0 where
  pub fourcc : ℕ
  pub modifier : ℕ

abbrev pub fm_eq : ℕ → ℕ → FormatModifier → Bool
fm_eq code modifier f = f.fourcc == code && f.modifier == modifier

-- The four bytes, the first one lowest; they do not overlap, so a sum is their union.
unfoldable pub fourcc : (a b c d : ℕ) → ℕ
fourcc a b c d = a + b * 256 + c * 65536 + d * 16777216

-- AR24, XR24, AB24 and XB24, linear.
unfoldable pub fallback : List FormatModifier
fallback =
    record { fourcc = fourcc 65 82 50 52; modifier = 0 }
    ∷ record { fourcc = fourcc 88 82 50 52; modifier = 0 }
    ∷ record { fourcc = fourcc 65 66 50 52; modifier = 0 }
    ∷ record { fourcc = fourcc 88 66 50 52; modifier = 0 }
    ∷ []

pub record ShellEgl : Type 0 where
  pub display : ℕ
  pub config : ℕ

pub record Caps : Type 0 where
  pub formats : List FormatModifier
  pub render_device : Option ℕ
  pub egl_images : Option ShellEgl

-- What ihs_pv_query_capabilities fills in; `images` is its IHS_PV_KIND_TEXTURE_EGL_IMAGE bit.
pub record Capabilities : Type 0 where
  pub ok : Bool
  pub render_device : ℕ
  pub images : Bool
  pub formats : Option (List FormatModifier)

-- What ihs_pv_egl_context fills in.
pub record EglContext : Type 0 where
  pub ok : Bool
  pub display : ℕ
  pub config : ℕ

unfoldable pub offers : List FormatModifier → (code modifier : ℕ) → Bool
offers [] code modifier = false
offers (f ∷ fs) code modifier = fm_eq code modifier f || offers fs code modifier

-- The loop of `import_formats`: a format that was pushed already is left out.
unfoldable pub push_new : (out offered : List FormatModifier) → List FormatModifier
push_new out [] = out
push_new out (f ∷ fs) = push_new (if offers out f.fourcc f.modifier then out else out ++ f ∷ []) fs

unfoldable pub import_formats : (ok : Bool) → Option (List FormatModifier) → List FormatModifier
import_formats false offered = fallback
import_formats true none = fallback
import_formats true (some []) = fallback
import_formats true (some (f ∷ fs)) = push_new [] (f ∷ fs)

unfoldable pub shell_egl : EglContext → Option ShellEgl
shell_egl egl =
    if egl.ok && not (egl.display == 0) && not (egl.config == 0)
    then some (record { display = egl.display; config = egl.config })
    else none

unfoldable pub query : Capabilities → EglContext → Caps
query caps egl = record {
  formats = import_formats caps.ok caps.formats;
  render_device =
      if caps.ok && not (caps.render_device == 0) then some caps.render_device else none;
  egl_images = if caps.ok && caps.images then shell_egl egl else none;
}

unfoldable pub accepts : Caps → (code modifier : ℕ) → Bool
accepts caps code modifier = offers caps.formats code modifier
