-- ===== src/Workflow/Key.antt =====
-- The keys that marketplace/services/orchestration_service.py reads and writes in the answers of nodes.
use agentchains.Base.{[], ◌∷◌, Text}

abbrev pub error : Text
error = 101 ∷ 114 ∷ 114 ∷ 111 ∷ 114 ∷ []

abbrev pub cost : Text
cost = 95 ∷ 99 ∷ 111 ∷ 115 ∷ 116 ∷ []

abbrev pub result : Text
result = 114 ∷ 101 ∷ 115 ∷ 117 ∷ 108 ∷ 116 ∷ []

abbrev pub artifacts : Text
artifacts = 97 ∷ 114 ∷ 116 ∷ 105 ∷ 102 ∷ 97 ∷ 99 ∷ 116 ∷ 115 ∷ []

abbrev pub parts_ : Text
parts_ = 112 ∷ 97 ∷ 114 ∷ 116 ∷ 115 ∷ []

abbrev pub text : Text
text = 116 ∷ 101 ∷ 120 ∷ 116 ∷ []

abbrev pub item : Text
item = 105 ∷ 116 ∷ 101 ∷ 109 ∷ []

abbrev pub index : Text
index = 105 ∷ 110 ∷ 100 ∷ 101 ∷ 120 ∷ []

abbrev pub iterations : Text
iterations = 105 ∷ 116 ∷ 101 ∷ 114 ∷ 97 ∷ 116 ∷ 105 ∷ 111 ∷ 110 ∷ 115 ∷ []

abbrev pub results : Text
results = 114 ∷ 101 ∷ 115 ∷ 117 ∷ 108 ∷ 116 ∷ 115 ∷ []

abbrev pub condition_met : Text
condition_met = 99 ∷ 111 ∷ 110 ∷ 100 ∷ 105 ∷ 116 ∷ 105 ∷ 111 ∷ 110 ∷ 95 ∷ 109 ∷ 101 ∷ 116 ∷ []

abbrev pub actual_value : Text
actual_value = 97 ∷ 99 ∷ 116 ∷ 117 ∷ 97 ∷ 108 ∷ 95 ∷ 118 ∷ 97 ∷ 108 ∷ 117 ∷ 101 ∷ []

abbrev pub selected_branch : Text
selected_branch =
    115 ∷ 101 ∷ 108 ∷ 101 ∷ 99 ∷ 116 ∷ 101 ∷ 100 ∷ 95 ∷ 98 ∷ 114 ∷ 97 ∷ 110 ∷ 99 ∷ 104 ∷ []

abbrev pub status : Text
status = 115 ∷ 116 ∷ 97 ∷ 116 ∷ 117 ∷ 115 ∷ []

abbrev pub output : Text
output = 111 ∷ 117 ∷ 116 ∷ 112 ∷ 117 ∷ 116 ∷ []

abbrev pub field : Text
field = 102 ∷ 105 ∷ 101 ∷ 108 ∷ 100 ∷ []

abbrev pub sub_execution_id : Text
sub_execution_id =
    115 ∷ 117 ∷ 98 ∷ 95 ∷ 101 ∷ 120 ∷ 101 ∷ 99 ∷ 117 ∷ 116 ∷ 105 ∷ 111 ∷ 110 ∷ 95 ∷ 105 ∷ 100 ∷ []

abbrev pub message : Text
message = 109 ∷ 101 ∷ 115 ∷ 115 ∷ 97 ∷ 103 ∷ 101 ∷ []

abbrev pub node_id : Text
node_id = 110 ∷ 111 ∷ 100 ∷ 101 ∷ 95 ∷ 105 ∷ 100 ∷ []

abbrev pub data_ : Text
data_ = 100 ∷ 97 ∷ 116 ∷ 97 ∷ []
