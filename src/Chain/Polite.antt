-- ===== src/Chain/Polite.antt =====
-- Clients that stop a frame before they start the next (AqMD3_console/src/aqmd3_console.cpp). The last
-- command stands first.
use aq_md3_acquisition_conso.Common.{◌⊎◌, true, false, List, [], ◌∷◌}
use aq_md3_acquisition_conso.Chain.{Command, acquire, acquire_frame, stop}

-- There was an "acquire".
unfoldable pub HasChain : List Command → Type 0
HasChain [] = ⊥
HasChain (acquire ∷ commands) = Unit
HasChain (acquire_frame ∷ commands) = HasChain commands
HasChain (stop terminate ∷ commands) = HasChain commands

-- The chain was not ended since.
unfoldable pub IsOpen : List Command → Type 0
IsOpen [] = Unit
IsOpen (acquire ∷ commands) = Unit
IsOpen (acquire_frame ∷ commands) = IsOpen commands
IsOpen (stop false ∷ commands) = IsOpen commands
IsOpen (stop true ∷ commands) = ⊥

-- What was started last was stopped since. A second end of the same chain stops nothing.
unfoldable pub IsStopped : List Command → Type 0
unfolding IsOpen
IsStopped [] = Unit
IsStopped (acquire ∷ commands) = ⊥
IsStopped (acquire_frame ∷ commands) = ⊥
IsStopped (stop false ∷ commands) = Unit
IsStopped (stop true ∷ commands) = IsOpen commands ⊎ IsStopped commands

-- Each start found the one before it stopped, and each frame a chain.
unfoldable pub IsPolite : List Command → Type 0
unfolding IsStopped HasChain
IsPolite [] = Unit
IsPolite (acquire ∷ commands) = IsStopped commands × IsPolite commands
IsPolite (acquire_frame ∷ commands) = IsStopped commands × (HasChain commands × IsPolite commands)
IsPolite (stop terminate ∷ commands) = IsPolite commands
