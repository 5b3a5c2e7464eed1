-- ===== src/Adviser/Frameworks.antt =====
-- services/adviser_llm/src/adviser_llm/frameworks.py: the analysis frameworks, and which of them are
-- convened. The advisory note, which is the same for all, is left out.
pub mod Council
use us_stock_helper.Prelude.{
  ℕ, Text, text_eq, Bool, true, false, not, ◌&&◌, ◌||◌, Option, none, some, List, [], ◌∷◌, codes,
  ltb, if◌then◌else◌, strip, every, select, take,
}
use us_stock_helper.Adviser.Evidence.{is_in, horizons}

pub record AnalysisFramework : Type 0 where
  pub id : Text
  pub display_name : Text
  pub methodology : Text
  pub blind_spots : List Text
  pub suitable_horizons : List Text

abbrev has_any {ℓ} : {A : Type ℓ} → List A → Bool
has_any [] = false
has_any (x ∷ xs) = true

abbrev is_written : Text → Bool
is_written t = has_any (strip t)

-- `AnalysisFramework.__post_init__`
unfoldable pub is_accepted : AnalysisFramework → Bool
is_accepted f =
    ((is_written f.id && is_written f.display_name) && is_written f.methodology)
    && ((has_any f.blind_spots && every is_written f.blind_spots)
        && (every (λ h. is_in h horizons) f.suitable_horizons && has_any f.suitable_horizons))

abbrev pub value_framework : AnalysisFramework
value_framework = record {
  id = codes "value";
  display_name = codes "价值锚定框架";
  methodology = codes "用现金流与资产的可验证锚点判断价格偏离，只在偏离足够大时表态。";
  blind_spots = codes "对故事驱动的重估反应迟钝" ∷ codes "在会计口径变更时锚点会失真" ∷ [];
  suitable_horizons = codes "swing" ∷ codes "long" ∷ [];
}

abbrev pub growth_framework : AnalysisFramework
growth_framework = record {
  id = codes "growth";
  display_name = codes "成长曲线框架";
  methodology = codes "追踪收入与渗透率的加速度，判断增长斜率是否在被重新定价。";
  blind_spots = codes "容易把一次性拉动当成趋势" ∷ codes "对估值上限缺乏约束" ∷ [];
  suitable_horizons = codes "swing" ∷ codes "long" ∷ [];
}

abbrev pub macro_framework : AnalysisFramework
macro_framework = record {
  id = codes "macro";
  display_name = codes "宏观周期框架";
  methodology = codes "从利率、通胀与信用条件的方向推断资产的贴现环境如何变化。";
  blind_spots = codes "个股特异性事件几乎被忽略" ∷ codes "宏观数据本身滞后且常被修订" ∷ [];
  suitable_horizons = codes "swing" ∷ codes "long" ∷ [];
}

abbrev pub geopolitics_framework : AnalysisFramework
geopolitics_framework = record {
  id = codes "geopolitics";
  display_name = codes "地缘与政策框架";
  methodology = codes "识别管制、关税与合规变化对收入可达性的直接约束。";
  blind_spots = codes "政策落地时点极难预测" ∷ codes "容易高估公开表态的执行力度" ∷ [];
  suitable_horizons = codes "short" ∷ codes "swing" ∷ codes "long" ∷ [];
}

abbrev pub technical_framework : AnalysisFramework
technical_framework = record {
  id = codes "technical";
  display_name = codes "技术结构框架";
  methodology = codes "只读已完成的价格与量能结构，判断当前处于何种趋势阶段。";
  blind_spots = codes "对基本面突变完全无感" ∷ codes "在低流动性下形态噪声极大" ∷ [];
  suitable_horizons = codes "short" ∷ codes "swing" ∷ [];
}

abbrev pub quantitative_framework : AnalysisFramework
quantitative_framework = record {
  id = codes "quantitative";
  display_name = codes "量化统计框架";
  methodology = codes "以可回测的统计特征衡量当前状态相对历史分布的位置。";
  blind_spots = codes "样本外结构断裂时失效" ∷ codes "无法解释新出现的因果机制" ∷ [];
  suitable_horizons = codes "short" ∷ codes "swing" ∷ [];
}

abbrev pub risk_framework : AnalysisFramework
risk_framework = record {
  id = codes "risk";
  display_name = codes "风险控制框架";
  methodology = codes "先量化最坏情形的损失路径，再判断当前赔率是否值得承担。";
  blind_spots = codes "系统性低估上行空间" ∷ codes "在低波动期会显得过度保守" ∷ [];
  suitable_horizons = codes "short" ∷ codes "swing" ∷ codes "long" ∷ [];
}

abbrev pub contrarian_framework : AnalysisFramework
contrarian_framework = record {
  id = codes "contrarian";
  display_name = codes "逆向共识框架";
  methodology = codes "度量一致预期的拥挤程度，在共识与证据背离处寻找错价。";
  blind_spots = codes "容易过早站到趋势对面" ∷ codes "把持续的强趋势误判为拥挤" ∷ [];
  suitable_horizons = codes "swing" ∷ codes "long" ∷ [];
}

abbrev pub quality_framework : AnalysisFramework
quality_framework = record {
  id = codes "quality";
  display_name = codes "商业质量框架";
  methodology = codes "考察护城河、定价权与资本回报的持续性，判断优势是否在变化。";
  blind_spots = codes "对周期性拐点反应慢" ∷ codes "倾向于为确定性支付过高价格" ∷ [];
  suitable_horizons = codes "long" ∷ [];
}

abbrev pub catalyst_framework : AnalysisFramework
catalyst_framework = record {
  id = codes "catalyst";
  display_name = codes "事件催化框架";
  methodology = codes "把已发生事件拆成可验证的时间表，判断哪一步尚未被定价。";
  blind_spots = codes "事件延期时判断整体失效" ∷ codes "对慢变量与长期趋势不敏感" ∷ [];
  suitable_horizons = codes "short" ∷ codes "swing" ∷ [];
}

abbrev pub liquidity_framework : AnalysisFramework
liquidity_framework = record {
  id = codes "liquidity";
  display_name = codes "资金流与流动性框架";
  methodology = codes "观察成交结构与可得流动性，判断价格变动能否被真实资金承接。";
  blind_spots = codes "资金数据披露稀疏且滞后" ∷ codes "无法区分被动配置与主动观点" ∷ [];
  suitable_horizons = codes "short" ∷ codes "swing" ∷ [];
}

abbrev pub tail_risk_framework : AnalysisFramework
tail_risk_framework = record {
  id = codes "tail_risk";
  display_name = codes "尾部风险框架";
  methodology = codes "专门为低概率高冲击情形定价，检查敞口是否具备凸性。";
  blind_spots = codes "长期看会持续付出保护成本" ∷ codes "对常态区间的判断价值有限" ∷ [];
  suitable_horizons = codes "short" ∷ codes "swing" ∷ codes "long" ∷ [];
}

abbrev pub supply_chain_framework : AnalysisFramework
supply_chain_framework = record {
  id = codes "supply_chain";
  display_name = codes "产业链传导框架";
  methodology = codes "沿上下游追踪订单、产能与库存的传导链条，定位冲击的落点。";
  blind_spots = codes "链条数据多为二手且口径不一" ∷ codes "传导时滞难以精确到季度" ∷ [];
  suitable_horizons = codes "swing" ∷ codes "long" ∷ [];
}

abbrev pub analysis_frameworks : List AnalysisFramework
analysis_frameworks =
    value_framework ∷ growth_framework ∷ macro_framework ∷ geopolitics_framework
    ∷ technical_framework ∷ quantitative_framework ∷ risk_framework ∷ contrarian_framework
    ∷ quality_framework ∷ catalyst_framework ∷ liquidity_framework ∷ tail_risk_framework
    ∷ supply_chain_framework ∷ []

abbrev pub suits : Text → AnalysisFramework → Bool
suits horizon f = is_in horizon f.suitable_horizons

-- `none` is a `ValueError`.
unfoldable pub select_frameworks : Text → ℕ → Option (List AnalysisFramework)
select_frameworks horizon maximum =
    if ltb maximum 1 || not (is_in horizon horizons)
    then none
    else some (take maximum (select (suits horizon) analysis_frameworks))

-- `framework_by_id` over a table, where `none` is a `KeyError`
unfoldable pub framework_by_id : List AnalysisFramework → Text → Option AnalysisFramework
framework_by_id [] id = none
framework_by_id (f ∷ fs) id =
    let rest = framework_by_id fs id in if text_eq f.id id then some f else rest
