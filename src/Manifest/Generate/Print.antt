-- ===== src/Manifest/Generate/Print.antt =====
-- The text of a macro line of tools/state/generate.py.
use libhw.Base.{Bool, List, Result, Text, [], codes, false, map, ok, true, ◌++◌, ◌>>=◌, ◌∷◌}
use libhw.Base.Numeral.{decimal, hex8}
use libhw.Manifest.Coverage.{Manifest}
use libhw.Manifest.Generate.{
  Macro, generate_def, hw_alias, hw_component, hw_dbgreg, hw_operation, hw_state,
}
use Prim.Native.String.{String}

-- `'"' + s + '"'`
unfoldable pub quoted : Text → Text
quoted s = codes "\"" ++ (s ++ codes "\"")

unfoldable pub flag : Bool → Text
flag true = codes "1"
flag false = codes "0"

-- `", ".join(...)`
unfoldable pub comma_join : List Text → Text
comma_join [] = []
comma_join (x ∷ []) = x
comma_join (x ∷ y ∷ xs) = x ++ (codes ", " ++ comma_join (y ∷ xs))

unfoldable pub call : String → List Text → Text
unfolding comma_join
call macro arguments = codes macro ++ (codes "(" ++ (comma_join arguments ++ codes ")"))

unfoldable pub render : Macro → Text
unfolding call quoted flag decimal hex8
render (hw_state s) = call "HW_STATE" (
    s.id
    ∷ quoted s.name
    ∷ (codes "HW_NS_" ++ s.namespace)
    ∷ (codes "HW_ACC_" ++ s.access)
    ∷ quoted s.encoding
    ∷ (codes "HW_ENC_" ++ s.encoding_kind)
    ∷ decimal s.width
    ∷ flag s.readable
    ∷ flag s.writable
    ∷ flag s.snapshot
    ∷ quoted s.feature
    ∷ quoted s.component
    ∷ [])
render (hw_alias id a) =
    call "HW_ALIAS" (id ∷ a.target ∷ decimal a.bit_offset ∷ decimal a.bit_width ∷ [])
render (hw_operation id name encoding reason) =
    call "HW_OPERATION" (id ∷ quoted name ∷ quoted encoding ∷ quoted reason ∷ [])
render (hw_component name base) =
    call "HW_COMPONENT" (name ∷ quoted name ∷ (codes "0x" ++ (hex8 base ++ codes "u")) ∷ [])
render (hw_dbgreg id name regsel lsb width) =
    call "HW_DBGREG" (id ∷ quoted name ∷ decimal regsel ∷ decimal lsb ∷ decimal width ∷ [])

-- The lines before the macros: the comment, and a default for each macro that is not defined.
unfoldable pub def_header : Manifest → List Text
def_header doc =
    codes "/*"
    ∷ (codes " * Generated from "
        ++ (doc.document ++ (codes " " ++ (doc.revision ++ codes " by tools/state_gen.py."))))
    ∷ codes " * Do not edit. Edit the manifest's source rules and re-import instead."
    ∷ codes " *"
    ∷ codes
        " * HW_STATE(id, name, ns, access, encoding, enc_kind, width, readable, writable, snapshot, feature, component)"
    ∷ codes " * HW_COMPONENT(id, name, base)   -- CoreSight block base, for ID-based discovery"
    ∷ codes " * HW_ALIAS(id, target, bit_offset, bit_width)"
    ∷ codes " * HW_OPERATION(id, name, encoding, reason)"
    ∷ codes " * HW_DBGREG(id, name, regsel, lsb, width)   -- DCRSR/DCRDR access path"
    ∷ codes " */"
    ∷ []
    ∷ codes "#ifndef HW_STATE"
    ∷ codes "#define HW_STATE(id, name, ns, access, enc, ekind, width, rd, wr, snap, feat, comp)"
    ∷ codes "#endif"
    ∷ codes "#ifndef HW_ALIAS"
    ∷ codes "#define HW_ALIAS(id, target, off, width)"
    ∷ codes "#endif"
    ∷ codes "#ifndef HW_OPERATION"
    ∷ codes "#define HW_OPERATION(id, name, enc, reason)"
    ∷ codes "#endif"
    ∷ codes "#ifndef HW_COMPONENT"
    ∷ codes "#define HW_COMPONENT(id, name, base)"
    ∷ codes "#endif"
    ∷ codes "#ifndef HW_DBGREG"
    ∷ codes "#define HW_DBGREG(id, name, regsel, lsb, width)"
    ∷ codes "#endif"
    ∷ []
    ∷ []

unfoldable pub def_footer : List Text
def_footer =
    []
    ∷ codes "#undef HW_STATE"
    ∷ codes "#undef HW_ALIAS"
    ∷ codes "#undef HW_OPERATION"
    ∷ codes "#undef HW_COMPONENT"
    ∷ codes "#undef HW_DBGREG"
    ∷ []
    ∷ []

-- `"\n".join(lines)`
unfoldable pub join_lines : List Text → Text
join_lines [] = []
join_lines (x ∷ []) = x
join_lines (x ∷ y ∷ xs) = x ++ (10 ∷ join_lines (y ∷ xs))

-- The text that is written to the file.
unfoldable pub def_text : Manifest → Result Text
unfolding generate_def render join_lines def_header def_footer
def_text doc = do
  macros ← generate_def doc
  ok (join_lines (def_header doc ++ (map render macros ++ def_footer)))
