-- ===== src/Tests/Output.antt =====
-- From packets to the frame: the theorems at packets of the toy format.
use osc2ftdidmx.Base.{ℕ, refl, none, List, [], ◌∷◌, ◌++◌, inl, inr, drop, codes}
use osc2ftdidmx.Osc.Tree.{walk}
use osc2ftdidmx.Osc.Args.{int32}
use osc2ftdidmx.Dispatch.Tables.{tree_root}
use osc2ftdidmx.Dispatch.Spec.{Assign, targets, spread}
use osc2ftdidmx.Packet.Effect.{SaysMessage, Says}
use osc2ftdidmx.Beat.{Chunk}
use osc2ftdidmx.Beat.Output.{SaysChunks}
use osc2ftdidmx.Tests.Toy.{packet_ops, same, reads}

-- The assignments of a message of the toy format.
abbrev said : List ℕ → ℕ → List Assign
said buf len = spread (int32 len ∷ []) none (targets (walk same tree_root 0 (drop 1 buf)) 0)

said-SaysMessage : (buf : List ℕ) (len : ℕ) → SaysMessage packet_ops buf len (said buf len)
said-SaysMessage buf len =
    (_, _, int32 len ∷ [], refl, reads (packet_ops.initialize buf len) buf (int32 len ∷ []), refl)

abbrev single : List ℕ
single = codes "/dmx/3/5"

abbrev bundle : List ℕ
bundle = codes "#/dmx/4/1"

single-Says : Says packet_ops 9 1 single 8 (said single 8)
single-Says = inr (inl (refl, refl, refl, said-SaysMessage single 8))

bundle-Says : Says packet_ops 10 1 bundle 9 (said (codes "/dmx/4/1") 8 ++ [])
bundle-Says = inl (
  refl,
  (
    said (codes "/dmx/4/1") 8,
    [],
    refl,
    inr (inl (refl, refl, refl, said-SaysMessage (codes "/dmx/4/1") 8)),
    refl,
  ),
)

abbrev chunks : List Chunk
chunks = record { buf = single; len = 8 } ∷ record { buf = bundle; len = 9 } ∷ []

abbrev all_said : List Assign
all_said = said single 8 ++ ((said (codes "/dmx/4/1") 8 ++ []) ++ [])

chunks-SaysChunks : SaysChunks packet_ops chunks all_said
chunks-SaysChunks = (_, _, refl, single-Says, (_, _, refl, bundle-Says, refl))
