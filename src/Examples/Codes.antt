-- ===== src/Examples/Codes.antt =====
-- The theorems on Morton codes and on the manifest of the append-only file at concrete values.
use tiny_red.Base.{
  ◌≡◌, refl, ◌<◌, arith, codes, pos, Bool, true, false, not, ◌&&◌, ltb, All, Bytes, [], ◌∷◌,
}
use tiny_red.Morton.{interleave, grid_latitude_number, grid_longitude_number}
use tiny_red.Aof.Manifest.{Manifest, parsed, is_space, format_manifest, parse_manifest}
use tiny_red.Aof.Fields.{IsInWord, parse_manifest-format_manifest}
use tiny_red.Morton.Interleaving.{grid_numbers-interleave}

grid_numbers-interleave_example :
    (grid_latitude_number (interleave 0x3fffffe 0x2345678) ≡ 0x3fffffe)
    × (grid_longitude_number (interleave 0x3fffffe 0x2345678) ≡ 0x2345678)
grid_numbers-interleave_example =
    grid_numbers-interleave 0x3fffffe 0x2345678 (omega arith) (omega arith)

-- The manifest that EnsureManifest writes for a new directory.
abbrev first_manifest : Manifest
first_manifest = record {
  node_type = codes "file";
  aof_filename = codes "appendonly.aof.1.incr.aof";
  seq = pos 1;
  file_type = b'i';
}

is_plain : Bytes → Bool
is_plain [] = true
is_plain (c ∷ cs) = (ltb c 128 && not (is_space c)) && is_plain cs

is_plain-All : (w : Bytes) → is_plain w ≡ true → All IsInWord w
unfolding is_plain
is_plain-All [] h = tt
is_plain-All (c ∷ cs) h =
    let low : c < 128 = ground arith in
    let dark : is_space c ≡ false = ground arith in
    let rest : is_plain cs ≡ true = ground arith in ((low, dark), is_plain-All cs rest)

parse_manifest-format_manifest_example :
    parse_manifest (format_manifest first_manifest) ≡ parsed first_manifest
unfolding is_plain is_space
parse_manifest-format_manifest_example =
    parse_manifest-format_manifest first_manifest
      ((λ h. cc), is_plain-All first_manifest.node_type refl)
      ((λ h. cc), is_plain-All first_manifest.aof_filename refl) (omega arith, omega arith)
      (omega arith, refl)
