-- ===== src/Constants.antt =====
-- src/com/gene/app/util/BudgetConstants.java: the numbers of the grid's columns and fields and the
-- names of the kinds of row, which the JSP page writes into the script.
use budget_app.Base.{ℕ, String}

abbrev pub project_name_cell : ℕ
project_name_cell = 1

abbrev pub brand_cell : ℕ
brand_cell = 2

abbrev pub gmemori_id_cell : ℕ
gmemori_id_cell = 4

abbrev pub project_owner_cell : ℕ
project_owner_cell = 5

abbrev pub project_wbs_cell : ℕ
project_wbs_cell = 6

abbrev pub subactivity_cell : ℕ
subactivity_cell = 7

abbrev pub po_number_cell : ℕ
po_number_cell = 9

abbrev pub vendor_cell : ℕ
vendor_cell = 10

abbrev pub unit_cell : ℕ
unit_cell = 11

abbrev pub jan_cell : ℕ
jan_cell = 12

abbrev pub dec_cell : ℕ
dec_cell = 23

abbrev pub remark_cell : ℕ
remark_cell = 25

abbrev pub number_of_hidden_columns : ℕ
number_of_hidden_columns = 6

abbrev pub forecast : String
forecast = "Forecast"

abbrev pub accrual : String
accrual = "Accrual"

abbrev pub quarterly_target : String
quarterly_target = "Quarterly Target"

abbrev pub quarterly_lts : String
quarterly_lts = "Quarterly LTS"

-- The fields that the cells of a project show.
abbrev pub project_name_field : ℕ
project_name_field = 2

abbrev pub brand_field : ℕ
brand_field = 6

abbrev pub gmemori_id_field : ℕ
gmemori_id_field = 0

abbrev pub project_wbs_field : ℕ
project_wbs_field = 3

abbrev pub subactivity_field : ℕ
subactivity_field = 5

abbrev pub po_number_field : ℕ
po_number_field = 8

abbrev pub vendor_field : ℕ
vendor_field = 10

abbrev pub unit_field : ℕ
unit_field = 49

abbrev pub project_name_search_field : ℕ
project_name_search_field = 29

abbrev pub project_name_gid_field : ℕ
project_name_gid_field = 42

abbrev pub brand_search_field : ℕ
brand_search_field = 28

abbrev pub brand_duplicate_field : ℕ
brand_duplicate_field = 44
