-- ===== src/Dns/Rereads.antt =====
-- dnsname_to_labels of evdns.c as a whole, and what name_parse makes of it.

use practising.Base.{
  ℕ, ◌+◌, ◌≤◌, ◌<◌, ◌≡◌, ap, ◌∙◌, Bool, false, Option, some, List, ◌∷◌, ◌++◌, length, ltb, arith,
  All, length-append,
}
use practising.Dns.{parsed, name_parse}
use practising.Dns.Labels.{Table, Written, overrun, too_long, no_room, written, dnsname_to_labels}
use practising.Dns.Names.{dotted, IsLabel, name_parse-Names}
use practising.Dns.Entries.{append-Reads, AreTrue}
use practising.Dns.Compress.{Outcome}
use practising.Dns.Writes.{length-dotted, put_labels-Outcome}

module _ (strdup : List ℕ → Bool) (buf_len : ℕ) where
  -- The table says truly where its names stand.
  abbrev pub IsTable : List ℕ → Option Table → Type 0
  IsTable out table = AreTrue out (length out) (λ _. ⊥) table

  -- What a call that writes a name behind `out` gives. `more` comes to stand behind the name.
  abbrev pub Reread : List ℕ → List ℕ → List ℕ → ℕ → Written → Type 0
  Reread out more name name_out_len overrun = buf_len < length out + length name + 2
  Reread out more name name_out_len too_long = ⊥
  Reread out more name name_out_len no_room = buf_len < length out + length name + 2
  Reread out more name name_out_len (written out' table') =
      (name_parse (out' ++ more) (length out) name_out_len ≡ some (parsed (length out') name))
      × IsTable out' table'
      × ((rest : List ℕ) × (out' ≡ out ++ rest))
      × (length out' ≤ length out + length name + 2)

  -- dnsname_to_labels of a name of at most 255 bytes, whose labels have 1 to 63 bytes, none a dot or
  -- zero, behind at most 16384 bytes and with a table that says truly where its names stand: it fails,
  -- or writes behind its buffer, only where the buffer lacks room for two bytes more than the name. What
  -- it writes stands behind the old bytes, is at most two bytes longer than the name and keeps the table
  -- true, and name_parse there, whatever follows, gives the name, if it fits, and the index behind it.
  pub name_parse-dnsname_to_labels :
      (out more l : List ℕ) (ls : List (List ℕ)) (table : Option Table) (name_out_len : ℕ)
      → All IsLabel (l ∷ ls)
      → length (dotted (l ∷ ls)) ≤ 255
      → length (dotted (l ∷ ls)) < name_out_len
      → length out ≤ 16384
      → IsTable out table
      → (w : Written) × (dnsname_to_labels strdup buf_len out (dotted (l ∷ ls)) table ≡ some w)
        × Reread out more (dotted (l ∷ ls)) name_out_len w
  unfolding dnsname_to_labels
  name_parse-dnsname_to_labels out more l ls table name_out_len good short fits small all_true =
      let name = dotted (l ∷ ls) in
      let in_limit : ltb 255 (length name) ≡ false = ground (arith, short) in
      let (w, done, result) =
        put_labels-Outcome strdup buf_len (length name + 1) out l ls (length out) (λ _. ⊥) table
          good (omega (arith, length-dotted l ls good)) (omega arith) small all_true
          (λ x h. absurd h) in
      (w, rw in_limit done, reread w result)
    where
      reread :
          (w : Written)
          → Outcome strdup buf_len out (l ∷ ls) (length out) (λ _. ⊥) w
          → Reread out more (dotted (l ∷ ls)) name_out_len w
      reread overrun h = h
      reread too_long h = h
      reread no_room h = h
      reread (written out' table') h =
          let r = append-Reads out' more (length out) (length out') (length out) _ h.reads in
          let size = length-append out' more in
          (
            name_parse-Names (out' ++ more) name_out_len (length out) r.pointers (length out')
                  r.labels r.names r.good
                  (omega (arith, r.few, size, ap length h.extends, length-append out h.rest))
                  (rw r.spelled fits)
                ∙ ap (λ t. some (parsed (length out') t)) r.spelled,
            h.entries,
            (h.rest, h.extends),
            h.short,
          )
