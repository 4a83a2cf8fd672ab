-- ===== src/Trust/Injection.antt =====
-- The patterns of `INJECTION_PATTERNS` in marketplace/services/agent_trust_service.py, which memory_service.py
-- has again, and their search in a text. A text is the list of its characters' codes.
use agentchains.Base.{Bool, true, false, ◌&&◌, ◌||◌, List, [], ◌∷◌, Text, ◌==◌}

-- ignore previous instructions
abbrev ignore_previous : Text
ignore_previous =
    105 ∷ 103 ∷ 110 ∷ 111 ∷ 114 ∷ 101 ∷ 32 ∷ 112 ∷ 114 ∷ 101 ∷ 118 ∷ 105 ∷ 111 ∷ 117 ∷ 115 ∷ 32
    ∷ 105 ∷ 110 ∷ 115 ∷ 116 ∷ 114 ∷ 117 ∷ 99 ∷ 116 ∷ 105 ∷ 111 ∷ 110 ∷ 115 ∷ []

-- system prompt
abbrev system_prompt : Text
system_prompt = 115 ∷ 121 ∷ 115 ∷ 116 ∷ 101 ∷ 109 ∷ 32 ∷ 112 ∷ 114 ∷ 111 ∷ 109 ∷ 112 ∷ 116 ∷ []

-- <script
abbrev script_tag : Text
script_tag = 60 ∷ 115 ∷ 99 ∷ 114 ∷ 105 ∷ 112 ∷ 116 ∷ []

-- javascript:
abbrev javascript : Text
javascript = 106 ∷ 97 ∷ 118 ∷ 97 ∷ 115 ∷ 99 ∷ 114 ∷ 105 ∷ 112 ∷ 116 ∷ 58 ∷ []

-- rm -rf
abbrev remove_all : Text
remove_all = 114 ∷ 109 ∷ 32 ∷ 45 ∷ 114 ∷ 102 ∷ []

-- drop table
abbrev drop_table : Text
drop_table = 100 ∷ 114 ∷ 111 ∷ 112 ∷ 32 ∷ 116 ∷ 97 ∷ 98 ∷ 108 ∷ 101 ∷ []

-- prompt injection
abbrev prompt_injection : Text
prompt_injection =
    112 ∷ 114 ∷ 111 ∷ 109 ∷ 112 ∷ 116 ∷ 32 ∷ 105 ∷ 110 ∷ 106 ∷ 101 ∷ 99 ∷ 116 ∷ 105 ∷ 111 ∷ 110 ∷ []

abbrev pub injection_patterns : List Text
injection_patterns =
    ignore_previous ∷ system_prompt ∷ script_tag ∷ javascript ∷ remove_all ∷ drop_table
    ∷ prompt_injection ∷ []

abbrev pub begins : Text → Text → Bool
begins [] text = true
begins (c ∷ pattern) [] = false
begins (c ∷ pattern) (d ∷ text) = (c == d) && begins pattern text

-- `pattern in text`
abbrev pub occurs : Text → Text → Bool
occurs pattern [] = begins pattern []
occurs pattern (d ∷ text) = begins pattern (d ∷ text) || occurs pattern text

abbrev pub any_occurs : List Text → Text → Bool
any_occurs [] text = false
any_occurs (p ∷ patterns) text = occurs p text || any_occurs patterns text

-- With `str.lower`, a parameter.
unfoldable pub contains_injection : (Text → Text) → Text → Bool
contains_injection lower text = any_occurs injection_patterns (lower text)
