-- ===== src/Startup/Extension.antt =====
-- Which paths get which decoder.
use Prim.Native.String.append as Append
use Prim.Native.String.{◌++◌ as append}
use evesso.Prelude.{◌≡◌, refl, ap, String, some}
use evesso.Startup.Config.{Decoder, decoder_of, extension, scan_extension, scan_step}

-- What the scan from the right has found is what it finds of a longer path.
scan_extension-append :
    (p t found : String) → scan_extension t ≡ some found → scan_extension (append p t) ≡ some found
scan_extension-append String.[] t found h = rw (Append.nil t) h
scan_extension-append (String.◌∷◌ c p) t found h =
    rw (Append.cons c p t) (ap (scan_step c (append p t)) (scan_extension-append p t found h))

extension-append :
    (p t found : String) → scan_extension t ≡ some found → extension (append p t) ≡ found
unfolding extension
extension-append p t found h = rw (extension, scan_extension-append p t found h) refl

-- Whatever stands before it, a path that ends in `.yaml` or `.yml` is decoded as YAML, and one that ends
-- in `.json` as JSON.
pub decoder_of_suffix :
    (p : String)
    → (decoder_of (extension (append p ".yaml")) ≡ some Decoder.yaml)
      × (decoder_of (extension (append p ".yml")) ≡ some Decoder.yaml)
      × (decoder_of (extension (append p ".json")) ≡ some Decoder.json)
unfolding decoder_of
decoder_of_suffix p = (
  rw (extension-append p ".yaml" ".yaml" refl) refl,
  rw (extension-append p ".yml" ".yml" refl) refl,
  rw (extension-append p ".json" ".json" refl) refl,
)
